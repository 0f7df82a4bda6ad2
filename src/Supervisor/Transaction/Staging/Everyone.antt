-- ===== src/Supervisor/Transaction/Staging/Everyone.antt =====
-- Staging a path for every class (src/supervisor.rs, `switch_subscription_locked`).
use causeway.Prelude.{
  ℕ, zero, suc, ◌+◌, ◌≡◌, refl, sym, ◌∙◌, inl, inr, Bool, true, Option, none, List, [], ◌∷◌, ◌++◌,
  length, length-append, take, all, filterb, if◌then◌else◌, arith,
}
use causeway.Prelude.Text.{Text, text_eq_refl}
use causeway.Prelude.Result.{Result, ok, err}
use causeway.Score.{Float}
use causeway.State.{Stats}
use causeway.Subscription.{Node, name}
use causeway.Supervisor.Candidates.{Sorting, in_regions}
use causeway.Supervisor.Candidates.Profile.{offers, profile_candidates_names}
use causeway.Supervisor.Switching.{max_switch_candidates, active_name}
use causeway.Supervisor.Activation.{ActiveNode, ClassRuntime}
use causeway.Supervisor.Transaction.Daemon.{Daemon, Outside, Failure}
use causeway.Supervisor.Transaction.Staging.{stage_from, candidates_of, stage_all}
use causeway.Supervisor.Transaction.Staging.Staged.{
  Unseen, Unseen-trans, Unseen-refl, Balanced, staged_at-snoc, stage_from-One,
}

pub offered_all :
    (nodes l : List Node) (k : ℕ)
    → ((x : Text) → offers x l ≡ true → offers x nodes ≡ true)
    → all (λ n. offers (name n) nodes) (take k l) ≡ true
offered_all nodes l zero h = refl
offered_all nodes [] (suc k) h = refl
offered_all nodes (n ∷ l) (suc k) h =
    let here = h (name n) (ground (arith, text_eq_refl (name n))) in
    let rest = offered_all nodes l k (λ x e. h x (ground arith)) in ground arith

offers-filterb :
    (x : Text) (p : Node → Bool) (l : List Node) → offers x (filterb p l) ≡ true → offers x l ≡ true
offers-filterb x p [] h = h
offers-filterb x p (n ∷ l) h = ground (arith, offers-filterb x p l)

module _ (F : Float) (sorting : Sorting Node) where
  candidates_of-offered :
      (out : Outside F.F64) (rt : ClassRuntime) (nodes : List Node) (stats : Option (Stats F.F64))
      (refreshed : Bool)
      → all (λ n. offers (name n) nodes) (candidates_of F sorting out rt nodes stats refreshed)
        ≡ true
  unfolding candidates_of
  candidates_of-offered out rt nodes stats refreshed =
      let regions = if refreshed then (out.class_env rt.name).regions else [] in
      let preferred = if refreshed then active_name rt.active else none in
      offered_all nodes _ max_switch_candidates (λ x e.
        offers-filterb x (in_regions regions) nodes
          (sym ((profile_candidates_names F sorting nodes stats preferred regions).0 x) ∙ e))

  -- What staging all classes comes to, from `c`.
  pub record StagedAll (c d : Daemon F.F64) (nodes : List Node) (n : ℕ)
      (o : Result Failure (List ActiveNode) × List ActiveNode × Daemon F.F64) : Type 0 where
    pub unseen : Unseen d o.2
    pub balanced : Balanced c o.2 o.1
    pub complete :
        (l : List ActiveNode)
        → o.0 ≡ ok l
        → (l ≡ o.1) × (length l ≡ n) × (all (λ a. offers (name a.node) nodes) l ≡ true)

  stage_all-pass :
      (out : Outside F.F64) (d : Daemon F.F64) (rt : ClassRuntime) (rts : List ClassRuntime)
      (nodes : List Node) (stats : Option (Stats F.F64)) (refreshed : Bool)
      (staged : List ActiveNode) (a : ActiveNode)
      → let one = stage_from out d rt (candidates_of F sorting out rt nodes stats refreshed) in
        one.0 ≡ ok a
        → stage_all F sorting out d (rt ∷ rts) nodes stats refreshed staged
          ≡ stage_all F sorting out one.1 rts nodes stats refreshed (staged ++ a ∷ [])
  unfolding stage_all
  stage_all-pass out d rt rts nodes stats refreshed staged a e = ground arith

  stage_all-fail :
      (out : Outside F.F64) (d : Daemon F.F64) (rt : ClassRuntime) (rts : List ClassRuntime)
      (nodes : List Node) (stats : Option (Stats F.F64)) (refreshed : Bool)
      (staged : List ActiveNode) (f : Failure)
      → let one = stage_from out d rt (candidates_of F sorting out rt nodes stats refreshed) in
        one.0 ≡ err f
        → stage_all F sorting out d (rt ∷ rts) nodes stats refreshed staged ≡ (err f, staged, one.1)
  unfolding stage_all
  stage_all-fail out d rt rts nodes stats refreshed staged f e = ground arith

  stage_all-nil :
      (out : Outside F.F64) (d : Daemon F.F64) (nodes : List Node) (stats : Option (Stats F.F64))
      (refreshed : Bool) (staged : List ActiveNode)
      → stage_all F sorting out d [] nodes stats refreshed staged ≡ (ok staged, staged, d)
  unfolding stage_all
  stage_all-nil out d nodes stats refreshed staged = refl

  same_list :
      (nodes : List Node) (staged l : List ActiveNode)
      → ◌≡◌ {A = Result Failure (List ActiveNode)} (ok staged) (ok l)
      → all (λ a. offers (name a.node) nodes) staged ≡ true
      → (l ≡ staged)
        × (length l ≡ length staged + 0)
        × (all (λ a. offers (name a.node) nodes) l ≡ true)
  same_list nodes staged l e q = let s : l ≡ staged = cc in (s, rw s (omega arith), rw s q)

  all_snoc :
      (nodes : List Node) (staged : List ActiveNode) (a : ActiveNode)
      → all (λ b. offers (name b.node) nodes) staged ≡ true
      → offers (name a.node) nodes ≡ true
      → all (λ b. offers (name b.node) nodes) (staged ++ a ∷ []) ≡ true
  all_snoc nodes [] a q h = ground arith
  all_snoc nodes (b ∷ staged) a q h = ground (arith, all_snoc nodes staged a)

  pub stage_all-StagedAll :
      (out : Outside F.F64) (c : Daemon F.F64) (nodes : List Node) (stats : Option (Stats F.F64))
      (refreshed : Bool) (rts : List ClassRuntime) (staged : List ActiveNode) (d : Daemon F.F64)
      → Balanced c d staged
      → all (λ a. offers (name a.node) nodes) staged ≡ true
      → StagedAll c d nodes
          (length staged + length rts)
          (stage_all F sorting out d rts nodes stats refreshed staged)
  stage_all-StagedAll out c nodes stats refreshed [] staged d h q =
      rw (stage_all-nil out d nodes stats refreshed staged) (record {
        unseen = Unseen-refl d;
        balanced = h;
        complete = λ l e. same_list nodes staged l e q;
      })
  stage_all-StagedAll out c nodes stats refreshed (rt ∷ rts) staged d h q =
      let offered = λ (n : Node). offers (name n) nodes in
      let cands = candidates_of F sorting out rt nodes stats refreshed in
      elim (stage_from-One offered out rt cands d
        (candidates_of-offered out rt nodes stats refreshed)) [
          | inl (f, e, k, same) ↦
              rw (stage_all-fail out d rt rts nodes stats refreshed staged f e)
                (record { unseen = k; balanced = λ p. rw same (h p); complete = λ l e'. cc })
          | inr (a, e, k, more, of) ↦
              let d' = (stage_from out d rt cands).1 in
              let ih =
                stage_all-StagedAll out c nodes stats refreshed rts (staged ++ a ∷ []) d'
                  (λ p. rw (more, staged_at-snoc p staged a) (omega (arith, h p)))
                  (all_snoc nodes staged a q of) in
              rw (stage_all-pass out d rt rts nodes stats refreshed staged a e) (record {
                unseen = Unseen-trans k ih.unseen;
                balanced = ih.balanced;
                complete = λ l e'.
                    let x = ih.complete l e' in
                    (x.0, x.1 ∙ omega (arith, length-append staged (a ∷ [])), x.2);
              })
        ]
