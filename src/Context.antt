-- ===== src/Context.antt =====
-- What an operation is given besides its input: the request context
-- (src/shared/context/request-context.service.ts), the UUIDs that it draws, and JavaScript numbers.
use govibe_core.Prelude.{ℕ, zero, suc, Option, none, some}

-- The part of the request context that the use cases read.
pub record RequestContext : Type 0 where
  pub user_id : Option ℕ
  pub correlation_id : Option ℕ

-- `ctx?.userId`; an absent and an empty id are alike to the code.
abbrev pub user_of : Option RequestContext → Option ℕ
user_of none = none
user_of (some ctx) = ctx.user_id

-- `ctx?.correlationId`
abbrev pub correlation_of : Option RequestContext → Option ℕ
correlation_of none = none
correlation_of (some ctx) = ctx.correlation_id

-- The results of the calls of `randomUUID()` in one operation, in their order. The generator is
-- node:crypto's, so it is an argument.
abbrev pub Uuids : Type 0
Uuids = ℕ → ℕ

-- A JavaScript number as the guards see it: a natural number, or any other value (negative,
-- fractional, NaN, infinite).
pub data JsNumber : Type 0 where
  nat : ℕ → JsNumber
  other : JsNumber

-- The number that passes `Number.isInteger(x) && x > 0`.
abbrev pub positive_integer : JsNumber → Option ℕ
positive_integer other = none
positive_integer (nat zero) = none
positive_integer (nat (suc n)) = some (suc n)
