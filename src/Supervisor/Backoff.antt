-- ===== src/Supervisor/Backoff.antt =====
-- The cooldown after a failed automatic recovery (src/supervisor.rs, `AutoRecoveryBackoff`). Times
-- and durations are nanoseconds; the failure count is a `u32`.
pub mod Delay
use causeway.Prelude.{
  ℕ, zero, suc, ◌+◌, ◌-◌, ◌*◌, ◌^◌, Bool, true, Option, none, some, min, ltb, leb, if◌then◌else◌,
}

abbrev pub auto_recovery_initial_backoff : ℕ
auto_recovery_initial_backoff = 60 * 1_000_000_000

abbrev pub auto_recovery_max_backoff : ℕ
auto_recovery_max_backoff = 15 * 60 * 1_000_000_000

abbrev pub u32_max : ℕ
u32_max = 2 ^ 32 - 1

pub record AutoRecoveryBackoff : Type 0 where
  pub consecutive_failures : ℕ
  pub retry_not_before : Option ℕ

unfoldable pub is_ready_at : AutoRecoveryBackoff → ℕ → Bool
is_ready_at b now = elim b.retry_not_before [ none ↦ true | some deadline ↦ leb deadline now ]

-- The loop `while doublings > 0 && delay < MAX`, on the doublings left.
pub doubled : ℕ → ℕ → ℕ
doubled zero delay = delay
doubled (suc doublings) delay =
    let more = doubled doublings (min (delay * 2) auto_recovery_max_backoff) in
    if ltb delay auto_recovery_max_backoff then more else delay

-- The state after the failure, and the delay.
pub record_failure_at : AutoRecoveryBackoff → ℕ → AutoRecoveryBackoff × ℕ
unfolding doubled
record_failure_at b now =
    let failures = min (b.consecutive_failures + 1) u32_max in
    let delay = doubled (failures - 1) auto_recovery_initial_backoff in
    (record { consecutive_failures = failures; retry_not_before = some (now + delay) }, delay)

abbrev pub reset : AutoRecoveryBackoff
reset = record { consecutive_failures = 0; retry_not_before = none }
