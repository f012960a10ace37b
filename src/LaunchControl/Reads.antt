-- ===== src/LaunchControl/Reads.antt =====
-- The launch control only reads, and only the events.
use govibe_core.Prelude.{ℕ, String, ◌≡◌, arith}
use govibe_core.Store.{Db, Post, ok, ◌>>=◌}
use govibe_core.LaunchControl.{
  LaunchConfig, load_event_scope, assert_event_scope_allowed, assert_currency_allowed,
  assert_checkout_allowed,
}

pub assert_checkout_allowed_reads :
    (config : LaunchConfig) (e : ℕ) (c : String) (db : Db)
    → Post (assert_checkout_allowed config e c db) (λ _ db'. db' ≡ db)
unfolding assert_checkout_allowed load_event_scope assert_event_scope_allowed
    assert_currency_allowed ◌>>=◌
assert_checkout_allowed_reads config e c db = ground arith

-- With the same events the control allows the same.
pub assert_checkout_allowed_events :
    (config : LaunchConfig) (e : ℕ) (c : String) (db db' : Db)
    → db'.events ≡ db.events
    → assert_checkout_allowed config e c db ≡ ok (tt, db)
    → assert_checkout_allowed config e c db' ≡ ok (tt, db')
unfolding assert_checkout_allowed load_event_scope assert_event_scope_allowed
    assert_currency_allowed ◌>>=◌
assert_checkout_allowed_events config e c db db' same h = ground arith
