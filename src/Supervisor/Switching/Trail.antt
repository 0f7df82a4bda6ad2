-- ===== src/Supervisor/Switching/Trail.antt =====
-- What the recovery flow does, and what it says when it fails (src/supervisor.rs, `switch_node_locked`).
use causeway.Prelude.{
  ℕ, zero, suc, ◌≢◌, ◌+◌, ◌≤◌, ◌<◌, ◌≡◌, refl, ap, inl, inr, ◌⊎◌, true, not, Option, none, some,
  List, [], ◌∷◌, length, take, is_some, Bool-cases, arith,
}
use causeway.Prelude.Text.{Text, is_text}
use causeway.Prelude.Result.{Result, ok, err}
use causeway.Score.{Float}
use causeway.Subscription.{Node, name}
use causeway.Supervisor.Candidates.{Sorting}
use causeway.Supervisor.Activation.{ActiveNode, ClassRuntime, Env, Sys, tick, try_candidates}
use causeway.Supervisor.Activation.Moves.{
  Unmoved, Switched, Unmoved-trans, tick-Unmoved, Switched-after,
}
use causeway.Supervisor.Activation.Attempts.{Outcome, try_candidates_outcome}
use causeway.Supervisor.Activation.Bounded.{blames, blameless, try_candidates_bounded}
use causeway.Supervisor.Switching.{
  Alternates, Rebuild, Recovery, recovered, shut_down, trail, max_switch_candidates,
  alternates_outcome, rebuild_outcome, active_name, switch_node_locked, after_alternates,
  rebuild_current, rebuild_with, give_up, alternates_of, or,
}

pub length-take : {A : Type 0} (n : ℕ) (l : List A) → length (take n l) ≤ n
length-take zero l = omega arith
length-take (suc n) [] = omega arith
length-take (suc n) (x ∷ l) = omega (arith, length-take n l)

module _ (F : Float) (sorting : Sorting Node) where
  -- What the two states and the flag of a trail may say, from the system before to the one after,
  -- where `m` attempts had been made once the alternates were done.
  abbrev pub Honest : Sys F.F64 → ℕ → Sys F.F64 → Recovery → Type 0
  Honest s m s' recovered = Unit {0}
  Honest s m s' shut_down = s'.attempts ≡ m
  Honest s m s' (trail alternates rebuild path_active cause) =
      (path_active ≡ is_some s.rt.active)
      × (alternates ≡ Alternates.failed → s.attempts < m)
      × (alternates ≡ Alternates.not_attempted → m ≡ s.attempts)
      × (rebuild ≡ Rebuild.failed → m < s'.attempts)
      × (rebuild ≢ Rebuild.failed → s'.attempts ≡ m)
      × (cause ≡ none → s'.attempts ≡ s.attempts)

  abbrev pub Settled : Env F.F64 → Sys F.F64 → ℕ → Recovery × Sys F.F64 → Type 0
  Settled env s m (r, s') =
      ((r ≡ recovered) × ((a : ActiveNode) × Switched env s s' a))
      ⊎ ((r ≢ recovered) × Unmoved s s' × Honest s m s' r)

  -- The attempts that had been made when the run over the alternates of a recovery was done.
  abbrev pub after_run : Env F.F64 → Sys F.F64 → Text → ℕ
  after_run env s reason =
      let others =
        alternates_of F sorting env s env.regions
          (λ n. not (is_text (active_name s.rt.active) (name n))) in
      (try_candidates F env s others reason).1.attempts

  -- The system `t` after the alternates have failed, from `s`.
  record Pending (s t : Sys F.F64) (last : Option Text) : Type 0 where
    unmoved : Unmoved s t
    none_yet : last ≡ none → t.attempts ≡ s.attempts
    some_yet : is_some last ≡ true → s.attempts < t.attempts
    few : t.attempts ≤ s.attempts + max_switch_candidates

  Pending-tick : (s t : Sys F.F64) (last : Option Text) → Pending s t last → Pending s (tick t) last
  Pending-tick s t last h = record {
    unmoved = Unmoved-trans h.unmoved (tick-Unmoved t);
    none_yet = h.none_yet;
    some_yet = h.some_yet;
    few = h.few;
  }

  give_up-Settled :
      (env : Env F.F64) (s t u : Sys F.F64) (last : Option Text) (rebuild : Rebuild)
      (cause : Option Text)
      → Pending s t last
      → Unmoved s u
      → (rebuild ≡ Rebuild.failed → t.attempts < u.attempts)
      → (rebuild ≢ Rebuild.failed → u.attempts ≡ t.attempts)
      → (cause ≡ none → u.attempts ≡ s.attempts)
      → Settled env s t.attempts (give_up F sorting (alternates_outcome last) rebuild cause u)
  unfolding give_up alternates_outcome
  give_up-Settled env s t u last rebuild cause h k a b c = inr (
    (λ e. cc),
    k,
    (
      ap (λ (rt : ClassRuntime). is_some rt.active) k.rt_kept,
      (λ e. ground (arith, h.some_yet)),
      (λ e. ground (arith, h.none_yet)),
      a,
      b,
      c,
    ),
  )

  failed-Unmoved :
      (env : Env F.F64) (t u : Sys F.F64) (l : List Node) (cause : Option Text)
      → Outcome F env t l (err cause, u)
      → Unmoved t u
  failed-Unmoved env t u l cause (inl (c, e, k)) = k
  failed-Unmoved env t u l cause (inr (a, e, m, k)) = cc

  -- What a run from `t` over `n` candidates gives.
  record Ran (env : Env F.F64) (t : Sys F.F64) (l : List Node) (n : ℕ)
      (o : Result (Option Text) Text × Sys F.F64) : Type 0 where
    outcome : Outcome F env t l o
    most : o.1.attempts ≤ t.attempts + n
    unblamed : blameless F o.0 ≡ true → o.1.attempts ≡ t.attempts
    blamed : blames F o.0 ≡ true → t.attempts < o.1.attempts

  try_candidates-Ran :
      (env : Env F.F64) (t : Sys F.F64) (l : List Node) (reason : Text)
      → Ran env t l (length l) (try_candidates F env t l reason)
  try_candidates-Ran env t l reason =
      let b = try_candidates_bounded F env t l reason in
      record {
        outcome = try_candidates_outcome F env t l reason;
        most = b.0;
        unblamed = b.1;
        blamed = b.2;
      }

  not_failed : (cause : Option Text) → rebuild_outcome cause ≢ Rebuild.failed → cause ≡ none
  unfolding rebuild_outcome
  not_failed none h = refl
  not_failed (some c) h = absurd (h refl)

  rebuild_with-Settled :
      (env : Env F.F64) (s t : Sys F.F64) (last : Option Text) (l : List Node)
      (o : Result (Option Text) Text × Sys F.F64)
      → Pending s t last
      → Ran env t l 1 o
      → Settled env s t.attempts (rebuild_with F sorting (alternates_outcome last) last o)
        × ((rebuild_with F sorting (alternates_outcome last) last o).1.attempts
            ≤ s.attempts + max_switch_candidates + 1)
  unfolding rebuild_with rebuild_outcome
  rebuild_with-Settled env s t last l (ok n, u) h r = elim r.outcome [
    | inl (cause, e, k) ↦ cc
    | inr (a, e, m, k) ↦
        (inl (refl, (a, Switched-after env a h.unmoved k)), omega (arith, r.most, h.few))
  ]
  rebuild_with-Settled env s t last l (err cause, u) h r = (
    give_up-Settled env s t u last (rebuild_outcome cause) (or cause last) h
        (Unmoved-trans h.unmoved (failed-Unmoved env t u l cause r.outcome)) (λ e. ground arith)
        (λ e. r.unblamed (rw (not_failed cause e) refl)) (λ e. ground arith),
    omega (arith, r.most, h.few),
  )

  abbrev Bounded : Env F.F64 → Sys F.F64 → ℕ → Recovery × Sys F.F64 → Type 0
  Bounded env s m o = Settled env s m o × (o.1.attempts ≤ s.attempts + max_switch_candidates + 1)

  rebuild_current-Bounded :
      (env : Env F.F64) (s t : Sys F.F64) (last : Option Text) (current : Option Node)
      → Pending s t last
      → Bounded env s t.attempts
          (rebuild_current F sorting env (alternates_outcome last) last current t)
  unfolding rebuild_current
  rebuild_current-Bounded env s t last none h = (
    give_up-Settled env s t t last Rebuild.not_possible last h h.unmoved (λ e. cc) (λ e. refl)
        h.none_yet,
    omega (arith, h.few),
  )
  rebuild_current-Bounded env s t last (some node) h =
      rebuild_with-Settled env s t last (node ∷ []) _ h (try_candidates-Ran env t (node ∷ []) _)

  after_alternates-Bounded :
      (env : Env F.F64) (s : Sys F.F64) (l : List Node) (current : Option Node)
      (o : Result (Option Text) Text × Sys F.F64)
      → Ran env s l max_switch_candidates o
      → Bounded env s o.1.attempts (after_alternates F sorting env current o)
  unfolding after_alternates
  after_alternates-Bounded env s l current (ok n, u) r = elim r.outcome [
    | inl (cause, e, k) ↦ cc
    | inr (a, e, m, k) ↦ (inl (refl, (a, k)), omega (arith, r.most))
  ]
  after_alternates-Bounded env s l current (err cause, u) r =
      let h : Pending s u cause = record {
        unmoved = failed-Unmoved env s u l cause r.outcome;
        none_yet = λ e. ground (arith, r.unblamed);
        some_yet = λ e. ground (arith, r.blamed);
        few = r.most;
      } in
      elim (Bool-cases (env.shutdown u.clock)) [
        | inl e ↦ rw e (
          inr ((λ e'. cc), Unmoved-trans h.unmoved (tick-Unmoved u), refl),
          omega (arith, r.most),
        )
        | inr e ↦
            rw e (rebuild_current-Bounded env s (tick u) cause current (Pending-tick s u cause h))
      ]

  Ran-weaken :
      (env : Env F.F64) (t : Sys F.F64) (l : List Node) (o : Result (Option Text) Text × Sys F.F64)
      → length l ≤ max_switch_candidates
      → Ran env t l (length l) o
      → Ran env t l max_switch_candidates o
  Ran-weaken env t l o h r = record {
    outcome = r.outcome;
    most = omega (arith, r.most);
    unblamed = r.unblamed;
    blamed = r.blamed;
  }

  pub switch_node_locked-Settled :
      (env : Env F.F64) (s : Sys F.F64) (reason : Text)
      → let o = switch_node_locked F sorting env s reason in
        Settled env s (after_run env s reason) o
        × (o.1.attempts ≤ s.attempts + max_switch_candidates + 1)
  unfolding switch_node_locked alternates_of
  switch_node_locked-Settled env s reason = after_alternates-Bounded env s _ _ _ (
      Ran-weaken env s _ _ (length-take max_switch_candidates _)
        (try_candidates-Ran env s _ reason))
