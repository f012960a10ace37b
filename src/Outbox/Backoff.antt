-- ===== src/Outbox/Backoff.antt =====
-- The delay before the next attempt.
use native.Mathlib.Omega.{pow_step}
use native.Mathlib.Nat.{pow-le-pow_right}
use govibe_core.Prelude.{ℕ, suc, ◌+◌, ◌*◌, ◌≤◌, ◌<◌, ◌≡◌, ◌^◌, min, refl, arith, ap, ◌∙◌}
use govibe_core.Outbox.Claims.{delay_seconds}

delay_small : (n : ℕ) → n ≤ 8 → delay_seconds n ≡ 2 ^ n
unfolding delay_seconds
delay_small n h =
    let bound : 2 ^ n ≤ 2 ^ 8 = pow-le-pow_right (omega arith) h in
    let same : min n 8 ≡ n = omega arith in rw same (omega arith)

power_next : (n : ℕ) → 2 ^ (n + 1) ≡ 2 * 2 ^ n
power_next n = let e : n + 1 ≡ suc n = omega arith in ap (λ k. 2 ^ k) e ∙ pow_step 2 n

-- The delay is one second before any failure, doubles with each of the first eight failures, and
-- is 256 seconds from there on.
pub delay_seconds_doubles :
    (n m : ℕ)
    → n < 8
    → (delay_seconds 0 ≡ 1)
      × (delay_seconds (n + 1) ≡ 2 * delay_seconds n)
      × (delay_seconds (m + 8) ≡ 256)
unfolding delay_seconds
delay_seconds_doubles n m h =
    let most : min (m + 8) 8 ≡ 8 = omega arith in
    (
      refl,
      rw (delay_small n (omega arith), delay_small (n + 1) (omega arith)) (power_next n),
      ap (λ k. min 300 (2 ^ k)) most,
    )
