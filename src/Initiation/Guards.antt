-- ===== src/Initiation/Guards.antt =====
-- The guards of `initiatePayment` in src/modules/payments/application/payments.service.ts, and
-- `assertEventEligible`. The messages leave out the id of the event.
use govibe_core.Prelude.{ℕ, zero, suc, String, not, Option, none, some, ◌==◌, text_eq, find_row}
use govibe_core.Store.{
  Db, User, Event, is_published, Organizer, is_approved, PaymentProvider, Tx, pure, gets, or_throw,
  throw_if, is_some, ◌>>=◌, ◌>>◌, domain_conflict, not_found,
}
use govibe_core.Context.{RequestContext, user_of}
use govibe_core.LaunchControl.{LaunchConfig, Provider, assert_payment_initiation_allowed}

-- `toSupportedProvider`
abbrev pub supported_provider : PaymentProvider → Provider
supported_provider PaymentProvider.paystack = Provider.paystack
supported_provider PaymentProvider.mtn_momo = Provider.momo

-- `UsersService.findById`
unfoldable pub find_user : ℕ → Db → Option User
find_user id db = find_row (λ (u : User). u.id == id) db.users

-- PaymentInitiationEventRecord: an event with its organizer.
pub record PayableEvent : Type 0 where
  pub event : Event
  pub organizer : Organizer

abbrev pub with_its_organizer : Db → Option Event → Option PayableEvent
with_its_organizer db none = none
with_its_organizer db (some e) =
    elim (find_row (λ (o : Organizer). o.id == e.organizer_id) db.organizers) [
      | none ↦ none
      | some o ↦ some (record { event = e; organizer = o })
    ]

-- `findByIdForPaymentInitiation`; an event has its organizer by a foreign key.
unfoldable pub find_payable_event : ℕ → Db → Option PayableEvent
find_payable_event id db = with_its_organizer db (find_row (λ (e : Event). e.id == id) db.events)

-- The price that passes `!event.priceMinor || event.priceMinor <= 0`.
abbrev pub valid_price : Option ℕ → Option ℕ
valid_price none = none
valid_price (some zero) = none
valid_price (some (suc n)) = some (suc n)

-- `assertEventEligible`, of an event that is found; the result is its price.
unfoldable pub assert_event_eligible : (trim : String → String) → PayableEvent → Tx ℕ
assert_event_eligible trim found = do
  throw_if (not (is_published found.event.status)) (domain_conflict "Event is not published.")
  throw_if (not (is_approved found.organizer.status))
      (domain_conflict "Organizer is not approved for payments.")
  throw_if (not found.event.payment_enabled) (domain_conflict "Event is not enabled for payments.")
  amount ←
      or_throw (valid_price found.event.price_minor)
        (domain_conflict "Event does not have a valid payment amount configured.")
  throw_if (text_eq (trim found.event.price_currency) "")
      (domain_conflict "Event does not have a valid payment currency configured.")
  pure amount

-- What the guards leave: the buyer, the event and the amount.
pub record Eligible : Type 0 where
  pub buyer : User
  pub event : Event
  pub amount_minor : ℕ

-- `initiatePayment` up to its first transaction. It only reads.
unfoldable pub check_eligible :
    LaunchConfig
    → (trim : String → String) → Option RequestContext
    → (event_id : ℕ) → PaymentProvider
    → Tx Eligible
check_eligible config trim ctx event_id provider = do
  user_id ← or_throw (user_of ctx) (domain_conflict "Authenticated user context is required.")
  user ← gets (find_user user_id)
  buyer ← or_throw user (not_found "Buyer not found.")
  throw_if (not buyer.is_active) (domain_conflict "Inactive users cannot initiate payments.")
  throw_if (not (is_some buyer.email_verified_at))
      (domain_conflict "Email verification is required before initiating payments.")
  event ← gets (find_payable_event event_id)
  found ← or_throw event (not_found "Event not found.")
  amount ← assert_event_eligible trim found
  assert_payment_initiation_allowed config (supported_provider provider) found.event.id
      found.event.price_currency
  pure (record { buyer = buyer; event = found.event; amount_minor = amount })
