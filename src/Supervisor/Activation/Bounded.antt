-- ===== src/Supervisor/Activation/Bounded.antt =====
-- How many candidates a run starts (src/supervisor.rs, `try_candidates`), and what its failure says.
use causeway.Prelude.{
  ℕ, ◌+◌, ◌≤◌, ◌<◌, ◌≡◌, refl, inl, inr, ◌⊎◌, true, false, Option, none, some, List, [], ◌∷◌,
  length, Bool-cases, arith, is_some, Bool,
}
use causeway.Prelude.Text.{Text}
use causeway.Prelude.Result.{Result, ok, err}
use causeway.Score.{Float}
use causeway.Subscription.{Node}
use causeway.Supervisor.Activation.{
  ActiveNode, Start, start_failed, started, Env, Sys, tick, settle, launch, try_activate,
  install_active, note_failure, try_from, try_candidates, cause_of,
}
use causeway.Supervisor.Activation.Moves.{try_activate-Tried}
use causeway.Supervisor.Activation.Attempts.{
  try_from-nil, try_from-stop, try_from-fail, try_from-pass,
}

module _ (F : Float) where
  settle-attempts :
      (handle : ℕ) (s : Sys F.F64) (r : Result Text ActiveNode)
      → (settle handle s r).1.attempts ≡ s.attempts
  unfolding settle
  settle-attempts handle s (ok a) = refl
  settle-attempts handle s (err e) = refl

  launch-attempts :
      (env : Env F.F64) (s : Sys F.F64) (node : Node) (o : Start)
      → (launch env s node o).1.attempts ≡ s.attempts + 1
  unfolding launch
  launch-attempts env s node (start_failed e) = refl
  launch-attempts env s node (started socks http check) = settle-attempts s.clock _ _

  try_activate-attempts :
      (env : Env F.F64) (s : Sys F.F64) (node : Node)
      → (try_activate env s node).1.attempts ≡ s.attempts + 1
  unfolding try_activate
  try_activate-attempts env s node = launch-attempts env s node (env.start s.clock node)

  note_failure-attempts :
      (env : Env F.F64) (s : Sys F.F64) (cand : Node) (e : Text)
      → (note_failure F env s cand e).attempts ≡ s.attempts
  unfolding note_failure
  note_failure-attempts env s cand e = refl

  install_active-attempts :
      (env : Env F.F64) (s : Sys F.F64) (a : ActiveNode) (reason : Text)
      → (install_active env s a reason).attempts ≡ s.attempts
  unfolding install_active
  install_active-attempts env s a reason = refl

  -- Whether the run has failed with a cause.
  abbrev pub blames : Result (Option Text) Text → Bool
  blames (ok n) = false
  blames (err cause) = is_some cause

  -- Whether the run has failed with no cause.
  abbrev pub blameless : Result (Option Text) Text → Bool
  blameless (ok n) = false
  blameless (err none) = true
  blameless (err (some c)) = false

  record Counted (s : Sys F.F64) (n : ℕ) (had : Bool) (r : Result (Option Text) Text)
      (s' : Sys F.F64) : Type 0 where
    fewest : s.attempts ≤ s'.attempts
    most : s'.attempts ≤ s.attempts + n
    unblamed : blameless r ≡ true → s'.attempts ≡ s.attempts
    carried : had ≡ true → blameless r ≡ false
    blamed : blames r ≡ true → (had ≡ true) ⊎ (s.attempts < s'.attempts)

  try_from-Counted :
      (env : Env F.F64) (cands : List Node) (s : Sys F.F64) (reason : Text) (last : Option Text)
      → let (r, s') = try_from F env s cands reason last in
        Counted s (length cands) (is_some last) r s'
  try_from-Counted env [] s reason last = rw (try_from-nil F env s reason last) (record {
    fewest = omega arith;
    most = omega arith;
    unblamed = λ e. refl;
    carried = λ e. ground arith;
    blamed = λ e. inl e;
  })
  try_from-Counted env (cand ∷ cands) s reason last = elim (Bool-cases (env.shutdown s.clock)) [
    | inl e ↦ rw (try_from-stop F env s cand cands reason last e) (record {
      fewest = omega arith;
      most = omega arith;
      unblamed = λ e. refl;
      carried = λ e. ground arith;
      blamed = λ e. inl e;
    })
    | inr e ↦
        let t = (try_activate env (tick s) cand).1 in
        let one = try_activate-attempts env (tick s) cand in
        elim (try_activate-Tried env (tick s) cand) [
          | inl (m, failed, k) ↦
              let ih =
                try_from-Counted env cands (note_failure F env t cand m) reason
                  (some (cause_of F cand m)) in
              let same = note_failure-attempts env t cand m in
              rw (try_from-fail F env s cand cands reason last m e failed) (record {
                fewest = omega (arith, ih.fewest, same, one);
                most = omega (arith, ih.most, same, one);
                unblamed = λ e. absurd (ground (arith, ih.carried refl));
                carried = λ e. ih.carried refl;
                blamed = λ e. inr (omega (arith, ih.fewest, same, one));
              })
          | inr (a, passed, ready) ↦
              let same = install_active-attempts env t a reason in
              rw (try_from-pass F env s cand cands reason last a e passed) (record {
                fewest = omega (arith, same, one);
                most = omega (arith, same, one);
                unblamed = λ e. cc;
                carried = λ e. refl;
                blamed = λ e. cc;
              })
        ]
  ]

  -- A run starts at most as many candidates as it is given; if it fails with no cause then it
  -- started none, and if it fails with a cause then it started one at least.
  pub try_candidates_bounded :
      (env : Env F.F64) (s : Sys F.F64) (candidates : List Node) (reason : Text)
      → let (r, s') = try_candidates F env s candidates reason in
        (s'.attempts ≤ s.attempts + length candidates)
        × (blameless r ≡ true → s'.attempts ≡ s.attempts)
        × (blames r ≡ true → s.attempts < s'.attempts)
  unfolding try_candidates
  try_candidates_bounded env s candidates reason =
      let c = try_from-Counted env candidates s reason none in
      (c.most, c.unblamed, λ e. ground (arith, c.blamed e))
