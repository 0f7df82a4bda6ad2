-- ===== src/Supervisor/Transaction/Staging/Staged.antt =====
-- What staging starts, and that stopping what is staged undoes it (src/supervisor.rs).
use causeway.Prelude.{
  ℕ, ◌+◌, ◌≡◌, refl, ◌∙◌, ap, inl, inr, ◌⊎◌, Bool, true, false, List, [], ◌∷◌, ◌++◌, ◌==◌, all,
  if◌then◌else◌, Bool-cases, arith,
}
use causeway.Prelude.Text.{Text}
use causeway.Prelude.Result.{Result, ok, err}
use causeway.Listener.Paths.{remove_one, occurs}
use causeway.Listener.Paths.Drain.{occurs-remove_one}
use causeway.Subscription.{Node}
use causeway.Supervisor.Activation.{ActiveNode, ClassRuntime, Sys, try_activate}
use causeway.Supervisor.Activation.Moves.{try_activate-Tried}
use causeway.Supervisor.Transaction.Daemon.{
  Daemon, Outside, Failure, timed_out, no_candidate, sys, with_sys,
}
use causeway.Supervisor.Transaction.Staging.{stop_staged, advance, stage_from}

-- How many of the staged paths run on this data plane.
abbrev pub staged_at : ℕ → List ActiveNode → ℕ
staged_at p [] = 0
staged_at p (a ∷ l) = (if a.handle == p then 1 else 0) + staged_at p l

pub staged_at-snoc :
    (p : ℕ) (l : List ActiveNode) (a : ActiveNode)
    → staged_at p (l ++ a ∷ []) ≡ staged_at p l + (if a.handle == p then 1 else 0)
staged_at-snoc p [] a = omega arith
staged_at-snoc p (b ∷ l) a = omega (arith, staged_at-snoc p l a)

module _ {F64 : Type 0} where
  -- What others see of the daemon has not changed.
  pub record Unseen (d d' : Daemon F64) : Type 0 where
    pub draining_kept : d'.draining ≡ d.draining
    pub state_kept : d'.state ≡ d.state
    pub committed_kept : d'.committed ≡ d.committed
    pub classes_kept : d'.classes ≡ d.classes
    pub subscriptions_kept : d'.subscriptions ≡ d.subscriptions
    pub traffic_kept : d'.traffic ≡ d.traffic

  pub Unseen-trans : {a b c : Daemon F64} → Unseen a b → Unseen b c → Unseen a c
  Unseen-trans h k = record {
    draining_kept = k.draining_kept ∙ h.draining_kept;
    state_kept = k.state_kept ∙ h.state_kept;
    committed_kept = k.committed_kept ∙ h.committed_kept;
    classes_kept = k.classes_kept ∙ h.classes_kept;
    subscriptions_kept = k.subscriptions_kept ∙ h.subscriptions_kept;
    traffic_kept = k.traffic_kept ∙ h.traffic_kept;
  }

  pub stop_staged-Unseen :
      (staged : List ActiveNode) (d : Daemon F64) → Unseen d (stop_staged d staged)
  unfolding stop_staged
  stop_staged-Unseen [] d = record {
    draining_kept = refl;
    state_kept = refl;
    committed_kept = refl;
    classes_kept = refl;
    subscriptions_kept = refl;
    traffic_kept = refl;
  }
  stop_staged-Unseen (a ∷ staged) d =
      let h = stop_staged-Unseen staged (record d { running = remove_one a.handle d.running }) in
      record {
        draining_kept = h.draining_kept;
        state_kept = h.state_kept;
        committed_kept = h.committed_kept;
        classes_kept = h.classes_kept;
        subscriptions_kept = h.subscriptions_kept;
        traffic_kept = h.traffic_kept;
      }

  -- The running data planes of `d` with the staged ones, on top of those of `c`.
  abbrev pub Balanced : Daemon F64 → Daemon F64 → List ActiveNode → Type 0
  Balanced c d staged = (p : ℕ) → occurs p d.running ≡ occurs p c.running + staged_at p staged

  pub stop_staged-Balanced :
      (staged : List ActiveNode) (c d : Daemon F64)
      → Balanced c d staged
      → Balanced c (stop_staged d staged) []
  unfolding stop_staged
  stop_staged-Balanced [] c d h = h
  stop_staged-Balanced (a ∷ staged) c d h =
      stop_staged-Balanced staged c (record d { running = remove_one a.handle d.running })
        (λ p. ground (
          arith,
          h p,
          h a.handle,
          occurs-remove_one a.handle p d.running (ground (arith, h a.handle)),
        ))

  pub Unseen-refl : (d : Daemon F64) → Unseen d d
  Unseen-refl d = record {
    draining_kept = refl;
    state_kept = refl;
    committed_kept = refl;
    classes_kept = refl;
    subscriptions_kept = refl;
    traffic_kept = refl;
  }

  with_sys-Unseen : (d : Daemon F64) (s : Sys F64) → Unseen d (with_sys d s)
  with_sys-Unseen d s = record {
    draining_kept = refl;
    state_kept = refl;
    committed_kept = refl;
    classes_kept = refl;
    subscriptions_kept = refl;
    traffic_kept = refl;
  }

  advance-Unseen : (d : Daemon F64) (clock : ℕ) → Unseen d (advance d clock)
  advance-Unseen d clock = record {
    draining_kept = refl;
    state_kept = refl;
    committed_kept = refl;
    classes_kept = refl;
    subscriptions_kept = refl;
    traffic_kept = refl;
  }

  -- The three ways that one attempt goes.
  stage_from-late :
      (out : Outside F64) (d : Daemon F64) (rt : ClassRuntime) (n : Node) (ns : List Node)
      → out.late d.clock ≡ true
      → stage_from out d rt (n ∷ ns)
        ≡ (err timed_out, advance d (try_activate (out.class_env rt.name) (sys d rt) n).1.clock)
  unfolding stage_from
  stage_from-late out d rt n ns e = ground arith

  stage_from-pass :
      (out : Outside F64) (d : Daemon F64) (rt : ClassRuntime) (n : Node) (ns : List Node)
      (a : ActiveNode)
      → out.late d.clock ≡ false
      → (try_activate (out.class_env rt.name) (sys d rt) n).0 ≡ ok a
      → stage_from out d rt (n ∷ ns)
        ≡ (ok a, with_sys d (try_activate (out.class_env rt.name) (sys d rt) n).1)
  unfolding stage_from
  stage_from-pass out d rt n ns a e passed = ground arith

  stage_from-fail :
      (out : Outside F64) (d : Daemon F64) (rt : ClassRuntime) (n : Node) (ns : List Node)
      (m : Text)
      → out.late d.clock ≡ false
      → (try_activate (out.class_env rt.name) (sys d rt) n).0 ≡ err m
      → stage_from out d rt (n ∷ ns)
        ≡ stage_from out (with_sys d (try_activate (out.class_env rt.name) (sys d rt) n).1) rt ns
  unfolding stage_from
  stage_from-fail out d rt n ns m e failed = ground arith

  -- What staging one class comes to; `q` is asked of the node.
  abbrev pub One : (Node → Bool) → Daemon F64 → Result Failure ActiveNode × Daemon F64 → Type 0
  One q d (r, d') =
      ((f : Failure) × (r ≡ err f) × Unseen d d' × (d'.running ≡ d.running))
      ⊎ ((a : ActiveNode) × (r ≡ ok a)
          × Unseen d d'
          × (d'.running ≡ a.handle ∷ d.running)
          × (q a.node ≡ true))

  One-after :
      (q : Node → Bool) (c d : Daemon F64) (o : Result Failure ActiveNode × Daemon F64)
      → Unseen c d
      → d.running ≡ c.running
      → One q d o
      → One q c o
  One-after q c d o h e (inl (f, r, k, same)) = inl (f, r, Unseen-trans h k, same ∙ e)
  One-after q c d o h e (inr (a, r, k, more, of)) =
      inr (a, r, Unseen-trans h k, more ∙ ap (λ l. a.handle ∷ l) e, of)

  stage_from-nil :
      (out : Outside F64) (d : Daemon F64) (rt : ClassRuntime)
      → stage_from out d rt [] ≡ (err no_candidate, d)
  unfolding stage_from
  stage_from-nil out d rt = refl

  pub stage_from-One :
      (q : Node → Bool) (out : Outside F64) (rt : ClassRuntime) (ns : List Node) (d : Daemon F64)
      → all q ns ≡ true
      → One q d (stage_from out d rt ns)
  stage_from-One q out rt [] d h =
      rw (stage_from-nil out d rt) (inl (no_candidate, refl, Unseen-refl d, refl))
  stage_from-One q out rt (n ∷ ns) d h = elim (Bool-cases (out.late d.clock)) [
    | inl e ↦ rw (stage_from-late out d rt n ns e) (inl (timed_out, refl, advance-Unseen d _, refl))
    | inr e ↦ elim (try_activate-Tried (out.class_env rt.name) (sys d rt) n) [
      | inl (m, failed, k) ↦
          let s = (try_activate (out.class_env rt.name) (sys d rt) n).1 in
          rw (stage_from-fail out d rt n ns m e failed) (
            One-after q d (with_sys d s) _ (with_sys-Unseen d s) k.running_kept
              (stage_from-One q out rt ns (with_sys d s) (ground arith)))
      | inr (a, passed, k) ↦ rw (stage_from-pass out d rt n ns a e passed) (
          inr (
            a,
            refl,
            with_sys-Unseen d (try_activate (out.class_env rt.name) (sys d rt) n).1,
            k.one_more,
            ap q k.of_node ∙ ground arith,
          ))
    ]
  ]
