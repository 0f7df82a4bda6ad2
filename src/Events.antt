-- ===== src/Events.antt =====
-- The bounded event ring (src/events.rs). The lock makes each call atomic, so a run of the ring is
-- a sequence of pushes.
pub mod Ring
use causeway.Prelude.{ℕ, List, [], ◌∷◌, ◌++◌, max, length, drop, ◌==◌, if◌then◌else◌}

-- The deque with its front first. `EventLog`'s events are only stored, so their type is a parameter.
pub record EventLog (A : Type 0) : Type 0 where
  pub inner : List A
  pub cap : ℕ

module _ {A : Type 0} where
  pub new : ℕ → EventLog A
  new cap = record { inner = []; cap = max cap 1 }

  unfoldable pub push : EventLog A → A → EventLog A
  push log ev =
      let q = if length log.inner == log.cap then drop 1 log.inner else log.inner in
      record log { inner = q ++ ev ∷ [] }

  pub snapshot : EventLog A → List A
  snapshot log = log.inner

  pub push_all : EventLog A → List A → EventLog A
  push_all log [] = log
  push_all log (ev ∷ evs) = push_all (push log ev) evs
