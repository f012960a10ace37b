-- ===== src/LaunchControl.antt =====
-- The pilot's launch control: which events, organizers, currencies, providers and gates may be
-- used. src/shared/launch-control/launch-control.service.ts. The messages leave out the ids that the
-- code puts in. Events and gates are read outside the caller's transaction there, which writes
-- neither, so they are read from its database here.
pub mod Reads
use govibe_core.Prelude.{
  ℕ, String, Bool, true, false, not, ◌||◌, Option, none, some, List, [], ◌∷◌, ◌==◌, text_eq,
  find_row,
}
use govibe_core.Store.{
  Event, Gate, Tx, gets, or_throw, throw_if, ◌>>=◌, ◌>>◌, domain_conflict, not_found,
  launch_control_disabled, launch_control_violation,
}

pub data Provider : Type 0 where
  paystack momo : Provider

abbrev pub provider_eq : Provider → Provider → Bool
provider_eq Provider.paystack Provider.paystack = true
provider_eq Provider.momo Provider.momo = true
provider_eq _ _ = false

-- The configuration, with `?? true` already applied to the switches.
pub record LaunchConfig : Type 0 where
  pub checkout_enabled : Bool
  pub payments_enabled : Bool
  pub admissions_enabled : Bool
  pub allowed_providers : Option (List Provider)
  pub allowed_currencies : Option (List String)
  pub allowed_organizer_ids : Option (List ℕ)
  pub allowed_event_ids : Option (List ℕ)
  pub allowed_gate_ids : Option (List ℕ)

-- `Set.has`
unfoldable pub has : {A : Type 0} → (A → A → Bool) → A → List A → Bool
has eq a [] = false
has eq a (x ∷ xs) = eq x a || has eq a xs

-- `toReadonlySet` and the test on its result: an absent or empty list restricts nothing.
unfoldable pub is_excluded : {A : Type 0} → (A → A → Bool) → A → Option (List A) → Bool
is_excluded eq a none = false
is_excluded eq a (some []) = false
is_excluded eq a (some (x ∷ xs)) = not (has eq a (x ∷ xs))

unfoldable pub load_event_scope : ℕ → Tx Event
load_event_scope event_id = do
  found ← gets (λ db. find_row (λ (e : Event). e.id == event_id) db.events)
  or_throw found (not_found "Event not found.")

unfoldable pub load_gate : ℕ → Tx Gate
load_gate gate_id = do
  found ← gets (λ db. find_row (λ (g : Gate). g.id == gate_id) db.gates)
  or_throw found (not_found "Gate not found.")

unfoldable pub assert_event_scope_allowed : LaunchConfig → Event → Tx (Unit {0})
assert_event_scope_allowed config scope = do
  throw_if (is_excluded ◌==◌ scope.id config.allowed_event_ids)
      (launch_control_violation "Event is not enabled for the pilot.")
  throw_if (is_excluded ◌==◌ scope.organizer_id config.allowed_organizer_ids)
      (launch_control_violation "Organizer is not enabled for the pilot.")

unfoldable pub assert_provider_allowed : LaunchConfig → Provider → Tx (Unit {0})
assert_provider_allowed config provider =
    throw_if (is_excluded provider_eq provider config.allowed_providers)
      (launch_control_violation "Payment provider is not enabled for the pilot.")

unfoldable pub assert_currency_allowed : LaunchConfig → String → Tx (Unit {0})
assert_currency_allowed config currency =
    throw_if (is_excluded text_eq currency config.allowed_currencies)
      (launch_control_violation "Currency is not enabled for the pilot.")

unfoldable pub assert_checkout_allowed : LaunchConfig → ℕ → String → Tx (Unit {0})
assert_checkout_allowed config event_id currency = do
  throw_if (not config.checkout_enabled)
      (launch_control_disabled "Checkout is disabled by pilot launch control.")
  scope ← load_event_scope event_id
  assert_event_scope_allowed config scope
  assert_currency_allowed config currency

unfoldable pub assert_payment_initiation_allowed :
    LaunchConfig → Provider → ℕ → String → Tx (Unit {0})
assert_payment_initiation_allowed config provider event_id currency = do
  throw_if (not config.payments_enabled)
      (launch_control_disabled "Payment initiation is disabled by pilot launch control.")
  scope ← load_event_scope event_id
  assert_event_scope_allowed config scope
  assert_provider_allowed config provider
  assert_currency_allowed config currency

-- Where both the event and the gate are missing, `Promise.all` reports the first that fails; here
-- it is the event.
unfoldable pub assert_admission_validation_allowed : LaunchConfig → ℕ → ℕ → Tx (Unit {0})
assert_admission_validation_allowed config event_id gate_id = do
  throw_if (not config.admissions_enabled)
      (launch_control_disabled "Admission validation is disabled by pilot launch control.")
  scope ← load_event_scope event_id
  gate ← load_gate gate_id
  assert_event_scope_allowed config scope
  throw_if (not (gate.venue_id == scope.venue_id))
      (domain_conflict "Gate does not belong to the ticket event venue.")
  throw_if (is_excluded ◌==◌ gate_id config.allowed_gate_ids)
      (launch_control_violation "Gate is not enabled for the pilot.")
