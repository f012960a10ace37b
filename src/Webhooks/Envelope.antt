-- ===== src/Webhooks/Envelope.antt =====
-- The parts of a webhook's body that are read: `parsePaystackEnvelope`, `parseMomoEnvelope` and
-- their assertions, of src/modules/payments/application/payment-verification.service.ts.
use govibe_core.Prelude.{
  String, Bool, true, false, ◌||◌, Option, none, some, text_eq, if◌then◌else◌, join,
}
use govibe_core.Store.{PaymentProvider, Result, ok, err, bad_request}

-- A parsed JSON body. A number is the text that `String` makes of it, and whether it is falsy; the
-- elements of an array are not read.
mutual
  pub data Body : Type 0 where
    nothing : Body
    boolean : Bool → Body
    number : (printed : String) (is_zero : Bool) → Body
    string : String → Body
    array : Body
    object : Fields → Body

  pub data Fields : Type 0 where
    no_fields : Fields
    field : String → Body → Fields → Fields

-- `body[name]`; an absent field is undefined, which the code does not tell from null.
unfoldable pub field_of : String → Fields → Body
field_of name no_fields = nothing
field_of name (field key value rest) =
    let later = field_of name rest in if text_eq key name then value else later

-- `typeof value === 'string' ? value : null`
abbrev pub as_string : Body → Option String
as_string (string s) = some s
as_string _ = none

-- `assertRecord`
unfoldable pub assert_record : Body → Result Fields
assert_record (object fields) = ok fields
assert_record _ = err (bad_request "Webhook payload must be a JSON object.")

abbrev pub not_a_record : Result (Option Fields)
not_a_record = err (bad_request "Webhook payload data must be a JSON object.")

-- `assertOptionalRecord`: what is falsy is no record.
unfoldable pub assert_optional_record : Body → Result (Option Fields)
assert_optional_record nothing = ok none
assert_optional_record (boolean false) = ok none
assert_optional_record (boolean true) = not_a_record
assert_optional_record (number printed is_zero) = if is_zero then ok none else not_a_record
assert_optional_record (string s) = if text_eq s "" then ok none else not_a_record
assert_optional_record array = not_a_record
assert_optional_record (object fields) = ok (some fields)

-- ParsedWebhookEnvelope, less the raw payload and headers.
pub record Envelope : Type 0 where
  pub provider : PaymentProvider
  pub payload_hash : String
  pub provider_event_id : String
  pub provider_reference : Option String
  pub event_type : Option String
  pub signature_valid : Option Bool
  pub supported : Bool

-- `typeof data.id === 'string' || typeof data.id === 'number' ? String(data.id) : payload:<hash>`
abbrev pub event_id_of : String → Body → String
event_id_of hash (string s) = s
event_id_of hash (number printed _) = printed
event_id_of hash _ = join "payload:" hash

abbrev pub paystack_event_id : String → Option Fields → String
paystack_event_id hash none = join "payload:" hash
paystack_event_id hash (some fields) = event_id_of hash (field_of "id" fields)

abbrev pub paystack_reference : Option Fields → Option String
paystack_reference none = none
paystack_reference (some fields) = as_string (field_of "reference" fields)

abbrev pub is_supported : Option String → Bool
is_supported none = false
is_supported (some event) = text_eq event "charge.success" || text_eq event "charge.failed"

abbrev paystack_envelope : String → Fields → Option Fields → Envelope
paystack_envelope hash body details = record {
  provider = PaymentProvider.paystack;
  payload_hash = hash;
  provider_event_id = paystack_event_id hash details;
  provider_reference = paystack_reference details;
  event_type = as_string (field_of "event" body);
  signature_valid = some true;
  supported = is_supported (as_string (field_of "event" body));
}

-- `parsePaystackEnvelope`
unfoldable pub parse_paystack_envelope : Body → String → Result Envelope
parse_paystack_envelope parsed hash = elim (assert_record parsed) [
  | err e ↦ err e
  | ok body ↦ elim (assert_optional_record (field_of "data" body)) [
    | err e ↦ err e
    | ok details ↦ ok (paystack_envelope hash body details)
  ]
]

abbrev momo_envelope : String → Fields → Envelope
momo_envelope hash body = record {
  provider = PaymentProvider.mtn_momo;
  payload_hash = hash;
  provider_event_id = join "payload:" hash;
  provider_reference = as_string (field_of "referenceId" body);
  event_type = as_string (field_of "status" body);
  signature_valid = none;
  supported = true;
}

-- `parseMomoEnvelope`
unfoldable pub parse_momo_envelope : Body → String → Result Envelope
parse_momo_envelope parsed hash = elim (assert_record parsed) [
  | err e ↦ err e
  | ok body ↦ ok (momo_envelope hash body)
]
