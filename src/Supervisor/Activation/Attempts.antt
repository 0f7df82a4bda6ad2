-- ===== src/Supervisor/Activation/Attempts.antt =====
-- What one run over the candidates does (src/supervisor.rs, `try_candidates`).
use mathlib.Core.List.{Mem, mem-cons_of_mem, mem-cons_self}
use causeway.Prelude.{
  ◌≡◌, refl, sym, subst, inl, inr, ◌⊎◌, true, false, Option, none, some, List, [], ◌∷◌, Bool-cases,
  arith,
}
use causeway.Prelude.Text.{Text}
use causeway.Prelude.Result.{Result, ok, err}
use causeway.Score.{Float}
use causeway.Subscription.{Node, name}
use causeway.Supervisor.Activation.{
  ActiveNode, Env, Sys, tick, try_activate, install_active, note_failure, try_from, try_candidates,
  cause_of,
}
use causeway.Supervisor.Activation.Moves.{
  Unmoved, Switched, Unmoved-refl, Unmoved-trans, tick-Unmoved, try_activate-Tried,
  install_active-Switched, Switched-after,
}

module _ (F : Float) where
  -- What a run over candidates may come to.
  abbrev pub Outcome :
      Env F.F64 → Sys F.F64 → List Node → Result (Option Text) Text × Sys F.F64 → Type 0
  Outcome env s candidates (r, s') =
      ((cause : Option Text) × (r ≡ err cause) × Unmoved s s')
      ⊎ ((a : ActiveNode) × (r ≡ ok (name a.node)) × Mem a.node candidates × Switched env s s' a)

  note_failure-Unmoved :
      (env : Env F.F64) (s : Sys F.F64) (cand : Node) (e : Text)
      → Unmoved s (note_failure F env s cand e)
  unfolding note_failure
  note_failure-Unmoved env s cand e = record {
    rt_kept = refl;
    running_kept = refl;
    draining_kept = refl;
    saved_kept = refl;
    classes_kept = ground arith;
  }

  Outcome-after :
      (env : Env F.F64) (s t : Sys F.F64) (cand : Node) (cands : List Node)
      (o : Result (Option Text) Text × Sys F.F64)
      → Unmoved s t
      → Outcome env t cands o
      → Outcome env s (cand ∷ cands) o
  Outcome-after env s t cand cands o h (inl (cause, e, k)) = inl (cause, e, Unmoved-trans h k)
  Outcome-after env s t cand cands o h (inr (a, e, m, k)) =
      inr (a, e, mem-cons_of_mem cand m, Switched-after env a h k)

  -- The three ways that one round of the loop goes.
  pub try_from-nil :
      (env : Env F.F64) (s : Sys F.F64) (reason : Text) (last : Option Text)
      → try_from F env s [] reason last ≡ (err last, s)
  unfolding try_from
  try_from-nil env s reason last = refl

  pub try_from-stop :
      (env : Env F.F64) (s : Sys F.F64) (cand : Node) (cands : List Node) (reason : Text)
      (last : Option Text)
      → env.shutdown s.clock ≡ true
      → try_from F env s (cand ∷ cands) reason last ≡ (err last, tick s)
  unfolding try_from
  try_from-stop env s cand cands reason last e = ground arith

  pub try_from-fail :
      (env : Env F.F64) (s : Sys F.F64) (cand : Node) (cands : List Node) (reason : Text)
      (last : Option Text) (m : Text)
      → env.shutdown s.clock ≡ false
      → (try_activate env (tick s) cand).0 ≡ err m
      → try_from F env s (cand ∷ cands) reason last
        ≡ try_from F env
            (note_failure F env (try_activate env (tick s) cand).1 cand m)
            cands
            reason
            (some (cause_of F cand m))
  unfolding try_from
  try_from-fail env s cand cands reason last m e failed = ground arith

  pub try_from-pass :
      (env : Env F.F64) (s : Sys F.F64) (cand : Node) (cands : List Node) (reason : Text)
      (last : Option Text) (a : ActiveNode)
      → env.shutdown s.clock ≡ false
      → (try_activate env (tick s) cand).0 ≡ ok a
      → try_from F env s (cand ∷ cands) reason last
        ≡ (ok (name a.node), install_active env (try_activate env (tick s) cand).1 a reason)
  unfolding try_from
  try_from-pass env s cand cands reason last a e passed = ground arith

  try_from-Outcome :
      (env : Env F.F64) (cands : List Node) (s : Sys F.F64) (reason : Text) (last : Option Text)
      → Outcome env s cands (try_from F env s cands reason last)
  try_from-Outcome env [] s reason last =
      rw (try_from-nil env s reason last) (inl (last, refl, Unmoved-refl s))
  try_from-Outcome env (cand ∷ cands) s reason last = elim (Bool-cases (env.shutdown s.clock)) [
    | inl e ↦ rw (try_from-stop env s cand cands reason last e) (inl (last, refl, tick-Unmoved s))
    | inr e ↦ elim (try_activate-Tried env (tick s) cand) [
      | inl (m, failed, k) ↦
          let t = note_failure F env (try_activate env (tick s) cand).1 cand m in
          rw (try_from-fail env s cand cands reason last m e failed) (
            Outcome-after env s t cand cands _
              (Unmoved-trans (tick-Unmoved s) (Unmoved-trans k (note_failure-Unmoved env _ cand m)))
              (try_from-Outcome env cands t reason (some (cause_of F cand m))))
      | inr (a, passed, ready) ↦ rw (try_from-pass env s cand cands reason last a e passed) (
          inr (
            a,
            refl,
            subst (λ n. Mem n (cand ∷ cands)) (sym ready.of_node) mem-cons_self,
            Switched-after env a (tick-Unmoved s)
                (install_active-Switched env (tick s) _ cand a reason ready),
          ))
    ]
  ]

  pub try_candidates_outcome :
      (env : Env F.F64) (s : Sys F.F64) (candidates : List Node) (reason : Text)
      → Outcome env s candidates (try_candidates F env s candidates reason)
  unfolding try_candidates
  try_candidates_outcome env s candidates reason = try_from-Outcome env candidates s reason none
