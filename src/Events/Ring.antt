-- ===== src/Events/Ring.antt =====
-- What the event ring of src/events.rs promises: the newest events, oldest first.
use mathlib.Core.List.{append_assoc, append-nil}
use causeway.Prelude.{
  ℕ, ◌<◌, ◌≡◌, refl, sym, ◌∙◌, ap, List, [], ◌∷◌, ◌++◌, max, drop-nil, last_n, last_n-push, arith,
}
use causeway.Events.{EventLog, new, push, push_all, snapshot}

module _ {A : Type 0} where
  -- A log that holds the newest entries of a history.
  pub record Holds (log : EventLog A) (history : List A) : Type 0 where
    pub roomy : 0 < log.cap
    pub newest : log.inner ≡ last_n log.cap history

  pub push-Holds :
      (log : EventLog A) (history : List A) (ev : A)
      → Holds log history
      → Holds (push log ev) (history ++ ev ∷ [])
  unfolding push
  push-Holds log history ev h = record {
    roomy = h.roomy;
    newest = rw (h.newest) (last_n-push log.cap history ev h.roomy);
  }

  push_all-Holds :
      (evs history : List A) (log : EventLog A)
      → Holds log history
      → Holds (push_all log evs) (history ++ evs)
  unfolding push_all
  push_all-Holds [] history log h = rw append-nil h
  push_all-Holds (ev ∷ evs) history log h =
      rw (append_assoc history (ev ∷ []) evs) at
        (push_all-Holds evs (history ++ ev ∷ []) (push log ev) (push-Holds log history ev h))

  push_all-cap : (evs : List A) (log : EventLog A) → (push_all log evs).cap ≡ log.cap
  unfolding push_all push
  push_all-cap [] log = refl
  push_all-cap (ev ∷ evs) log = push_all-cap evs (push log ev)

  -- After any sequence of pushes into a new log of capacity `size`, the snapshot is the newest
  -- `max size 1` of the events, oldest first, and nothing else.
  pub snapshot-push_all :
      (size : ℕ) (evs : List A) → snapshot (push_all (new size) evs) ≡ last_n (max size 1) evs
  unfolding new snapshot
  snapshot-push_all size evs =
      (push_all-Holds evs [] (new size)
        (record { roomy = omega arith; newest = sym (drop-nil _) })).newest
      ∙ ap (λ k. last_n k evs) (push_all-cap evs (new size))
