-- ===== src/Listener/Throttle/Bound.antt =====
-- What the throttle of src/listener.rs guarantees over a storm of errors of one kind.
use native.Mathlib.Nat.{add-zero}
use causeway.Prelude.{
  ℕ, ◌+◌, ◌-◌, ◌*◌, ◌≤◌, ◌<◌, ◌≡◌, ◌≢◌, Option, none, some, List, [], ◌∷◌, length, arith,
}
use causeway.Listener.Traffic.{u64_max}
use causeway.Listener.Throttle.{AcceptErrorThrottle, accept_error_log_interval, observe}

-- What the log shows of a storm: the lines written, and the failures that those lines account for.
pub record Report : Type 0 where
  pub throttle : AcceptErrorThrottle
  pub ended : ℕ
  pub lines : ℕ
  pub reported : ℕ

abbrev pub note : Option ℕ → ℕ × ℕ → ℕ × ℕ
note none (lines, reported) = (lines, reported)
note (some n) (lines, reported) = (lines + 1, reported + n + 1)

pub failure : ℕ → Report → ℕ → Report
failure kind r gap =
    let (t, line) = observe r.throttle kind (r.ended + gap) in
    let (lines, reported) = note line (r.lines, r.reported) in
    record { throttle = t; ended = r.ended + gap; lines = lines; reported = reported }

abbrev pub sum : List ℕ → ℕ
sum [] = 0
sum (x ∷ xs) = x + sum xs

-- A storm of errors of one kind; each number is the time since the error before.
pub storm : ℕ → Report → List ℕ → Report
storm kind r [] = r
storm kind r (gap ∷ gaps) = storm kind (failure kind r gap) gaps

-- The start of a storm: the kind was logged just now, as the first of its kind.
pub opened : ℕ → ℕ → Report
opened kind now = record {
  throttle = record { last_kind = some kind; suppressed = 0; last_log = now };
  ended = now;
  lines = 1;
  reported = 1;
}

record Bounded (kind start n : ℕ) (r : Report) : Type 0 where
  kind_kept : r.throttle.last_kind ≡ some kind
  in_order : r.throttle.last_log ≤ r.ended
  spaced : start + (r.lines - 1) * accept_error_log_interval ≤ r.throttle.last_log
  some_line : 0 < r.lines
  exact : r.reported + r.throttle.suppressed ≡ n

failure-Bounded :
    (kind start n gap : ℕ) (r : Report)
    → n < u64_max
    → Bounded kind start n r
    → Bounded kind start (n + 1) (failure kind r gap)
unfolding failure observe
failure-Bounded kind start n gap r small h = ground arith

storm-Bounded :
    (kind start n : ℕ) (gaps : List ℕ) (r : Report)
    → n + length gaps ≤ u64_max
    → Bounded kind start n r
    → Bounded kind start (n + length gaps) (storm kind r gaps)
unfolding storm
storm-Bounded kind start n [] r small h = rw add-zero h
storm-Bounded kind start n (gap ∷ gaps) r small h =
    let e : n + 1 + length gaps ≡ n + length (gap ∷ gaps) = omega arith in
    rw e at (
      storm-Bounded kind start (n + 1) gaps (failure kind r gap) (omega arith)
        (failure-Bounded kind start n gap r (omega arith) h))

storm-ended :
    (kind : ℕ) (gaps : List ℕ) (r : Report) → (storm kind r gaps).ended ≡ r.ended + sum gaps
unfolding storm failure
storm-ended kind [] r = omega arith
storm-ended kind (gap ∷ gaps) r = omega (arith, storm-ended kind gaps (failure kind r gap))

-- In a storm of one error kind that begins with a logged error, the lines stay at least one
-- interval apart, so that their number is bounded by the time that the storm lasts; and as long as
-- there are at most `u64::MAX` failures every one of them is either counted by a line or still in
-- the pending count.
pub storm_bounds :
    (kind start : ℕ) (gaps : List ℕ)
    → 1 + length gaps ≤ u64_max
    → let r = storm kind (opened kind start) gaps in
      ((r.lines - 1) * accept_error_log_interval ≤ sum gaps)
      × (r.reported + r.throttle.suppressed ≡ 1 + length gaps)
unfolding opened
storm_bounds kind start gaps small =
    let b = storm-Bounded kind start 1 gaps (opened kind start) small (ground arith) in
    (omega (arith, b.spaced, b.in_order, storm-ended kind gaps (opened kind start)), b.exact)

-- A failure of a kind that was not the last one is logged at once, with no pending count, and the
-- next one of that kind within the interval is suppressed.
pub observe_new_kind :
    (t : AcceptErrorThrottle) (kind now later : ℕ)
    → t.last_kind ≢ some kind
    → later < now + accept_error_log_interval
    → ((observe t kind now).1 ≡ some 0) × ((observe (observe t kind now).0 kind later).1 ≡ none)
unfolding observe
observe_new_kind t kind now later other soon = ground arith
