-- ===== src/Webhooks/Signature.antt =====
-- src/modules/payments/webhooks/webhook-signature.service.ts. The HMAC of a body, in hexadecimal, is
-- an argument.
use govibe_core.Prelude.{String, Option, none, some, List, [], ◌∷◌, text_eq, if◌then◌else◌}

-- A header: absent, a text, or a list of texts.
pub data Header : Type 0 where
  absent : Header
  single : String → Header
  many : List String → Header

-- `getHeaderValue`, of the header that the name selects.
unfoldable pub header_value : Header → Option String
header_value absent = none
header_value (single s) = some s
header_value (many []) = none
header_value (many (s ∷ _)) = some s

-- A text that is not falsy.
abbrev pub truthy : Option String → Option String
truthy none = none
truthy (some s) = if text_eq s "" then none else some s

-- PaystackSignatureValidationResult: a failure with its message, or none.
abbrev pub check_signature : (expected : String) → Option String → Option String
check_signature expected none = some "Missing Paystack webhook signature."
check_signature expected (some signature) =
    if text_eq expected signature then none else some "Invalid Paystack webhook signature."

-- `validatePaystackSignature`: two buffers of different lengths, and two of one length that differ,
-- have the same message.
unfoldable pub validate_paystack_signature :
    (hmac : String → String) → (raw_body : String) → Header → Option String
validate_paystack_signature hmac raw_body header =
    check_signature (hmac raw_body) (truthy (header_value header))
