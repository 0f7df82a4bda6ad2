-- ===== src/State/Persist/Atomic.antt =====
-- A save replaces the state file whole or not at all (src/state.rs, `save_atomic`).
use causeway.Prelude.{◌≡◌, refl, inl, inr, ◌⊎◌, some, if◌then◌else◌, Bool-cases, arith}
use causeway.Prelude.Text.{Text}
use causeway.Prelude.Map.{Map}
use causeway.Prelude.Result.{Result, ok, err}
use causeway.State.{Stats, StateFile}
use causeway.State.Persist.{
  Json, StateError, io, SaveOutcome, durable, committed_not_durable, Calls, Disk,
  persisted_subscription_nodes, to_v2, save_atomic, commit, write_wire,
}

module _ {F64 : Type 0} where
  -- What a save may do to the state file.
  abbrev pub Replaces :
      Json F64 → Calls → Disk → StateFile F64 → Result StateError SaveOutcome × Disk → Type 0
  Replaces j c disk st (r, after) =
      ((e : StateError) × (r ≡ err e) × (after.target ≡ disk.target))
      ⊎ ((all : Map (Stats F64)) × (persisted_subscription_nodes st ≡ ok all)
          × (r ≡ ok (if c.sync_parent then durable else committed_not_durable))
          × (after.target ≡ some (j.write_v2 (to_v2 st all))))

  commit_cases :
      (j : Json F64) (c : Calls) (disk : Disk) (text : Text)
      → let (r, after) = commit j c disk text in
        ((r ≡ err io) × (after.target ≡ disk.target))
        ⊎ ((r ≡ ok (if c.sync_parent then durable else committed_not_durable))
            × (after.target ≡ some text))
  unfolding commit
  commit_cases j c disk text = ground arith

  write_wire-Replaces :
      (j : Json F64) (c : Calls) (disk : Disk) (st : StateFile F64)
      (r : Result StateError (Map (Stats F64)))
      → persisted_subscription_nodes st ≡ r
      → Replaces j c disk st (write_wire j c disk st r)
  unfolding write_wire
  write_wire-Replaces j c disk st (err e) p = inl (e, refl, refl)
  write_wire-Replaces j c disk st (ok all) p = elim (Bool-cases c.open_tmp) [
    | inl e ↦ rw e (written (commit_cases j c disk (j.write_v2 (to_v2 st all))))
    | inr e ↦ rw e (inl (io, refl, refl))
  ]
    where
      written :
          (let (r, after) = commit j c disk (j.write_v2 (to_v2 st all)) in
            ((r ≡ err io) × (after.target ≡ disk.target))
            ⊎ ((r ≡ ok (if c.sync_parent then durable else committed_not_durable))
                × (after.target ≡ some (j.write_v2 (to_v2 st all)))))
          → Replaces j c disk st (commit j c disk (j.write_v2 (to_v2 st all)))
      written (inl (failed, kept)) = inl (io, failed, kept)
      written (inr (done, replaced)) = inr (all, p, done, replaced)

  -- Whichever calls fail: a save that reports an error leaves the state file as it was, and one
  -- that reports success has put the whole new document there, and is durable exactly if the
  -- directory was synced.
  pub save_atomic-Replaces :
      (j : Json F64) (c : Calls) (disk : Disk) (st : StateFile F64)
      → Replaces j c disk st (save_atomic j c disk st)
  unfolding save_atomic
  save_atomic-Replaces j c disk st = elim (Bool-cases c.create_dir_all) [
    | inl e ↦ rw e (write_wire-Replaces j c disk st (persisted_subscription_nodes st) refl)
    | inr e ↦ rw e (inl (io, refl, refl))
  ]
