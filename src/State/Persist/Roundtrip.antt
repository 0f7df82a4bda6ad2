-- ===== src/State/Persist/Roundtrip.antt =====
-- A saved state loads back (src/state.rs, `save_atomic` and `load`).
use causeway.Prelude.{
  ◌≡◌, refl, inl, inr, Bool, true, ◌&&◌, Option, none, some, List, [], ◌∷◌, all, find, arith,
}
use causeway.Prelude.Text.{Text, text_eq_refl, is_text}
use causeway.Prelude.Map.{Map, get, get-insert, remove-insert}
use causeway.Prelude.Result.{ok}
use causeway.Score.{NodeStats}
use causeway.State.{Stats, StateFile}
use causeway.State.Persist.Atomic.{save_atomic-Replaces}
use causeway.State.Activate.{IsSingle}
use causeway.State.Persist.{
  StateFileV2, Json, SaveOutcome, contents, bad_slot, Calls, Disk, persisted_subscription_nodes,
  from_v2, to_v2, load, save_atomic, bind_active, take_active,
}

module _ {F64 : Type 0} where
  abbrev opt_exact : (F64 → Bool) → Option F64 → Bool
  opt_exact exact none = true
  opt_exact exact (some x) = exact x

  abbrev node_exact : (F64 → Bool) → NodeStats F64 → Bool
  node_exact exact n =
      exact n.success_ema && opt_exact exact n.rtt_ema_ms && all exact n.recent_rtts_ms

  -- Every floating-point number of the statistics passes the test.
  abbrev pub all_exact : (F64 → Bool) → Map (Stats F64) → Bool
  all_exact exact m =
      all (λ (p : Text × Stats F64). all (λ (q : Text × NodeStats F64). node_exact exact q.1) p.1) m

  lists_exact : (l : List F64) → all (λ n. true) l ≡ true
  lists_exact [] = refl
  lists_exact (x ∷ l) = lists_exact l

  nodes_exact :
      (l : Stats F64) → all (λ (q : Text × NodeStats F64). node_exact (λ n. true) q.1) l ≡ true
  nodes_exact [] = refl
  nodes_exact ((name, n) ∷ l) = ground (arith, lists_exact n.recent_rtts_ms, nodes_exact l)

  -- Where no number is rounded, no statistics have one that is.
  pub all_exact_always : (m : Map (Stats F64)) → all_exact (λ n. true) m ≡ true
  all_exact_always [] = refl
  all_exact_always ((name, l) ∷ m) = ground (arith, nodes_exact l, all_exact_always m)

  -- What is relied on of `serde_json`, where `exact` holds of the finite numbers that it parses back
  -- from their decimal form without a rounding error: a document all of whose numbers are such is
  -- read back as it was written. Without the feature `float_roundtrip`, not every number is.
  pub record ReadsBack (j : Json F64) (exact : F64 → Bool) : Type 0 where
    pub version_only-write : (w : StateFileV2 F64) → j.version_only (j.write_v2 w) ≡ some w.version
    pub read-write :
        (w : StateFileV2 F64)
        → all_exact exact w.subscription_nodes ≡ true
        → j.read_v2 (j.write_v2 w) ≡ some w

  -- The part that depends on the active profile, with the two fields of the state as variables.
  take_active-bind_active :
      (active : Option Text) (nodes : Stats F64) (inactive all : Map (Stats F64))
      → ((name : Text) → is_text active name ≡ true → get name inactive ≡ none)
      → bind_active active nodes inactive ≡ ok all
      → take_active active all ≡ ok (nodes, inactive)
  unfolding bind_active take_active
  take_active-bind_active none [] inactive all single h = ground arith
  take_active-bind_active none (s ∷ ss) inactive all single h = cc
  take_active-bind_active (some a) nodes inactive all single h = ground (
    arith,
    get-insert a a nodes inactive,
    remove-insert a nodes inactive,
    single a,
    text_eq_refl a,
  )

  from_v2-to_v2 :
      (st : StateFile F64) (all : Map (Stats F64))
      → IsSingle st
      → find bad_slot st.subscription_cache_slots ≡ none
      → persisted_subscription_nodes st ≡ ok all
      → from_v2 (to_v2 st all) ≡ ok st
  unfolding from_v2 to_v2 persisted_subscription_nodes
  from_v2-to_v2 st all single slots p = ground (
    arith,
    take_active-bind_active st.active_subscription st.nodes st.subscription_nodes all single,
  )

  load-write :
      (j : Json F64) (exact : F64 → Bool) (st : StateFile F64) (all : Map (Stats F64))
      → ReadsBack j exact
      → all_exact exact all ≡ true
      → from_v2 (to_v2 st all) ≡ ok st
      → load j (contents (j.write_v2 (to_v2 st all))) ≡ ok (some st)
  unfolding load to_v2
  load-write j exact st all back e h =
      rw (back.version_only-write (to_v2 st all), back.read-write (to_v2 st all) e, h) refl

  -- If a save succeeds, also one whose directory sync failed, then loading the file that it left
  -- gives exactly the state that was saved. The state has one copy of the active statistics, its
  -- cache slots are valid, and `serde_json` reads each number of its statistics back without a
  -- rounding error.
  pub load-save_atomic :
      (j : Json F64) (exact : F64 → Bool) (c : Calls) (disk : Disk) (st : StateFile F64)
      (done : SaveOutcome)
      → ReadsBack j exact
      → ((all : Map (Stats F64))
          → persisted_subscription_nodes st ≡ ok all
          → all_exact exact all ≡ true)
      → IsSingle st
      → find bad_slot st.subscription_cache_slots ≡ none
      → (save_atomic j c disk st).0 ≡ ok done
      → (text : Text) × ((save_atomic j c disk st).1.target ≡ some text)
        × (load j (contents text) ≡ ok (some st))
  load-save_atomic j exact c disk st done back floats single slots h =
      elim (save_atomic-Replaces j c disk st) [
        | inl (e, failed, kept) ↦ cc
        | inr (all, p, done', replaced) ↦ (
          j.write_v2 (to_v2 st all),
          replaced,
          load-write j exact st all back (floats all p) (from_v2-to_v2 st all single slots p),
        )
      ]
