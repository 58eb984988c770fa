-- ===== src/Jobs/Errors/Backoff.antt =====
-- backend/src/modules/jobs/runner.ts: `defaultBackoffMs`.
use personal_carbon_footprin.Prelude.{ℕ, zero, suc, ◌-◌, ◌*◌, ◌^◌, ◌≤◌, min, ◌≡◌, refl, arith}
use personal_carbon_footprin.Jobs.Errors.{default_backoff_ms}

power_positive : (n : ℕ) → 1 ≤ 2 ^ n
power_positive zero = omega arith
power_positive (suc n) = omega (arith, power_positive n)

power_step : (n : ℕ) → 2 ^ (suc (suc n) - 1) ≡ 2 * 2 ^ (suc n - 1)
power_step n =
    let up : suc (suc n) - 1 ≡ suc n = omega arith in
    let down : suc n - 1 ≡ n = omega arith in rw (up, down) (omega arith)

-- The first retry waits a second, each next one twice as long as the one before, up to a minute;
-- no retry waits less than a second or more than a minute.
pub default_backoff_ms_lem :
    (n : ℕ)
    → (default_backoff_ms 1 ≡ 1000)
      × (default_backoff_ms (suc (suc n)) ≡ min 60000 (2 * default_backoff_ms (suc n)))
      × (1000 ≤ default_backoff_ms n)
      × (default_backoff_ms n ≤ 60000)
unfolding default_backoff_ms
default_backoff_ms_lem n =
    (refl, omega (arith, power_step n), omega (arith, power_positive (n - 1)), omega arith)
