-- ===== src/Listener/Throttle.antt =====
-- The rate limit on `accept failed` warnings (src/listener.rs, `AcceptErrorThrottle`). Times are
-- nanoseconds; an `ErrorKind` is only compared, so it is a number.
pub mod Bound
use causeway.Prelude.{
  ℕ, ◌-◌, ◌*◌, Bool, false, ◌&&◌, not, Option, none, some, leb, ◌==◌, if◌then◌else◌,
}
use causeway.Listener.Traffic.{saturating_add}

abbrev pub accept_error_log_interval : ℕ
accept_error_log_interval = 5 * 1_000_000_000

pub record AcceptErrorThrottle : Type 0 where
  pub last_kind : Option ℕ
  pub suppressed : ℕ
  pub last_log : ℕ

pub new : ℕ → AcceptErrorThrottle
new now = record { last_kind = none; suppressed = 0; last_log = now }

abbrev pub is_kind : Option ℕ → ℕ → Bool
is_kind none kind = false
is_kind (some k) kind = k == kind

-- The throttle after the error, and the count to log if it is logged now.
pub observe : AcceptErrorThrottle → ℕ → ℕ → AcceptErrorThrottle × Option ℕ
observe t kind now =
    let same_kind = is_kind t.last_kind kind in
    let interval_elapsed = leb accept_error_log_interval (now - t.last_log) in
    if same_kind && not interval_elapsed
    then (record t { suppressed = saturating_add t.suppressed 1 }, none)
    else (
      record { last_kind = some kind; suppressed = 0; last_log = now },
      some (if same_kind then t.suppressed else 0),
    )
