-- ===== src/Supervisor/Switching/Health.antt =====
-- Health checks, the cooldown and pinned classes (src/supervisor.rs, `record_health_outcome`,
-- `recover_after_health_failure`, and the loops that call them).
use causeway.Prelude.{
  ℕ, ◌+◌, ◌≤◌, ◌≡◌, ◌∙◌, refl, inl, inr, ◌⊎◌, Bool, true, false, not, ◌&&◌, Option, none, some,
  List, [], ◌∷◌, min, is_some, if◌then◌else◌, arith,
}
use causeway.Prelude.Text.{Text}
use causeway.Score.{Float}
use causeway.Subscription.{Node}
use causeway.Supervisor.Backoff.{u32_max, is_ready_at, record_failure_at}
use causeway.Supervisor.Candidates.{Sorting}
use causeway.Supervisor.Activation.{ActiveNode, Env, Sys, tick}
use causeway.Supervisor.Activation.Moves.{Switched}
use causeway.Supervisor.Switching.{
  Recovery, recovered, shut_down, trail, back_off, recover_after_health_failure,
  record_health_outcome, health_turn, probe_decision, probe_on, challenge,
}
use causeway.Supervisor.Switching.Trail.{Settled, switch_node_locked-Settled}

module _ (F : Float) (sorting : Sorting Node) where
  -- The system after a run of health verdicts, the newest first.
  pub checked : Env F.F64 → Sys F.F64 → List Bool → Sys F.F64
  checked env s [] = s
  checked env s (passed ∷ vs) = (record_health_outcome F sorting env (checked env s vs) passed).1

  -- The failures since the last success, on top of `n` failures before the run.
  abbrev pub failing : ℕ → List Bool → ℕ
  failing n [] = n
  failing n (passed ∷ vs) = if passed then 0 else failing n vs + 1

  checked-active :
      (env : Env F.F64) (s : Sys F.F64) (vs : List Bool)
      → (checked env s vs).rt.active ≡ s.rt.active
  unfolding checked record_health_outcome
  checked-active env s [] = refl
  checked-active env s (passed ∷ vs) = ground (arith, checked-active env s vs)

  -- While a path is active, the streak that drives recovery is the number of checks that failed in a
  -- row up to now, held at `u32::MAX`, whatever other classes record for the node; and the checks
  -- move no path.
  pub checked_streak :
      (env : Env F.F64) (s : Sys F.F64) (a : ActiveNode) (vs : List Bool)
      → s.rt.active ≡ some a
      → s.rt.health_failures ≤ u32_max
      → ((checked env s vs).rt.health_failures ≡ min (failing s.rt.health_failures vs) u32_max)
        × ((checked env s vs).rt.active ≡ some a)
        × ((checked env s vs).running ≡ s.running)
  unfolding checked record_health_outcome
  checked_streak env s a [] active small = (omega arith, active, refl)
  checked_streak env s a (passed ∷ vs) active small =
      let h = checked_streak env s a vs active small in
      (ground (arith, h), ground (arith, h), ground (arith, h))

  -- The path of the class is the same: the active node, the route and the data planes.
  record SamePath (s s' : Sys F.F64) : Type 0 where
    active : s'.rt.active ≡ s.rt.active
    route : s'.rt.route ≡ s.rt.route
    running : s'.running ≡ s.running
    draining : s'.draining ≡ s.draining

  record_health_outcome-SamePath :
      (env : Env F.F64) (s : Sys F.F64) (passed : Bool)
      → SamePath s (record_health_outcome F sorting env (tick s) passed).1
  unfolding record_health_outcome
  record_health_outcome-SamePath env s passed = record {
    active = ground arith;
    route = ground arith;
    running = ground arith;
    draining = ground arith;
  }

  recover-pinned :
      (env : Env F.F64) (s : Sys F.F64)
      → env.auto_switch ≡ false
      → is_some s.rt.active ≡ true
      → recover_after_health_failure F sorting env s ≡ s
  unfolding recover_after_health_failure
  recover-pinned env s pinned active = rw (pinned, active) refl

  challenge-pinned :
      (env : Env F.F64) (hysteresis : F.F64) (s : Sys F.F64) (current : Text) (best : Option Node)
      → env.auto_switch ≡ false
      → challenge F sorting env hysteresis s current best ≡ s
  unfolding challenge
  challenge-pinned env hysteresis s current none pinned = refl
  challenge-pinned env hysteresis s current (some c) pinned = rw pinned refl

  probe_on-pinned :
      (env : Env F.F64) (hysteresis : F.F64) (s : Sys F.F64) (current : Option Text)
      → env.auto_switch ≡ false
      → probe_on F sorting env hysteresis s current ≡ s
  unfolding probe_on
  probe_on-pinned env hysteresis s none pinned = refl
  probe_on-pinned env hysteresis s (some current) pinned =
      challenge-pinned env hysteresis s current _ pinned

  probe_decision-pinned :
      (env : Env F.F64) (hysteresis : F.F64) (s : Sys F.F64)
      → env.auto_switch ≡ false
      → probe_decision F sorting env hysteresis s ≡ s
  unfolding probe_decision
  probe_decision-pinned env hysteresis s pinned = probe_on-pinned env hysteresis s _ pinned

  health_turn-SamePath :
      (env : Env F.F64) (s : Sys F.F64) (verdict : Option Bool)
      → env.auto_switch ≡ false
      → is_some s.rt.active ≡ true
      → SamePath s (health_turn F sorting env s verdict)
  unfolding health_turn
  health_turn-SamePath env s none pinned active = record {
    active = refl;
    route = refl;
    running = refl;
    draining = refl;
  }
  health_turn-SamePath env s (some passed) pinned active =
      let t = (record_health_outcome F sorting env (tick s) passed).1 in
      let h = record_health_outcome-SamePath env s passed in
      let r = recover-pinned env (tick t) pinned (rw (h.active) active) in
      record {
        active = ground (arith, r, h.active);
        route = ground (arith, r, h.route);
        running = ground (arith, r, h.running);
        draining = ground (arith, r, h.draining);
      }

  -- A class whose automatic switching is off keeps its path, its route and its data planes through
  -- every turn of the health loop, whatever the verdict; and what the probe loop decides after a
  -- probe cycle, on whatever statistics the cycle left, changes nothing.
  pub pinned_stays :
      (env : Env F.F64) (hysteresis : F.F64) (s : Sys F.F64) (a : ActiveNode)
      (verdict : Option Bool)
      → env.auto_switch ≡ false
      → s.rt.active ≡ some a
      → let s' = health_turn F sorting env s verdict in
        (s'.rt.active ≡ some a)
        × (s'.rt.route ≡ s.rt.route)
        × (s'.running ≡ s.running)
        × (s'.draining ≡ s.draining)
        × (probe_decision F sorting env hysteresis s ≡ s)
  pinned_stays env hysteresis s a verdict pinned active =
      let h = health_turn-SamePath env s verdict pinned (rw active refl) in
      (
        h.active ∙ active,
        h.route,
        h.running,
        h.draining,
        probe_decision-pinned env hysteresis s pinned,
      )

  -- What a recovery that was not held back may come to.
  abbrev pub Retried : Env F.F64 → Sys F.F64 → Sys F.F64 → Type 0
  Retried env s s' =
      ((a : ActiveNode) × Switched env s s' a)
      ⊎ ((t : ℕ) × (s'.rt.auto_recovery ≡ (record_failure_at s.rt.auto_recovery (env.now t)).0)
          × (s'.rt.active ≡ s.rt.active)
          × (s'.rt.route ≡ s.rt.route)
          × (s'.running ≡ s.running))

  back_off-Retried :
      (env : Env F.F64) (s : Sys F.F64) (m : ℕ) (o : Recovery × Sys F.F64)
      → Settled F sorting env s m o
      → Retried env s (back_off F sorting env o)
  unfolding back_off
  back_off-Retried env s m (recovered, t) (inl (e, (a, k))) = inl (a, k)
  back_off-Retried env s m (recovered, t) (inr (ne, k, honest)) = absurd (ne refl)
  back_off-Retried env s m (shut_down, t) (inl (e, k)) = cc
  back_off-Retried env s m (shut_down, t) (inr (ne, k, honest)) = inr (
    t.clock,
    ground (arith, k.rt_kept),
    ground (arith, k.rt_kept),
    ground (arith, k.rt_kept),
    k.running_kept,
  )
  back_off-Retried env s m (trail al rb p c, t) (inl (e, k)) = cc
  back_off-Retried env s m (trail al rb p c, t) (inr (ne, k, honest)) = inr (
    t.clock,
    ground (arith, k.rt_kept),
    ground (arith, k.rt_kept),
    ground (arith, k.rt_kept),
    k.running_kept,
  )

  -- A recovery after failed health checks, of a class that may move: while the cooldown runs it does
  -- nothing but look at the clock; once it is over, the recovery either installs a path, with the
  -- cooldown cleared, or it leaves the path as it was and the cooldown grows by one more failure.
  pub recover_after_health_failure_paced :
      (env : Env F.F64) (s : Sys F.F64)
      → is_some s.rt.active && not env.auto_switch ≡ false
      → let s' = recover_after_health_failure F sorting env s in
        (is_ready_at s.rt.auto_recovery (env.now s.clock) ≡ false → s' ≡ tick s)
        × (is_ready_at s.rt.auto_recovery (env.now s.clock) ≡ true → Retried env (tick s) s')
  unfolding recover_after_health_failure
  recover_after_health_failure_paced env s movable = (
    (λ e. rw (movable, e) refl),
    (λ e.
        rw (movable, e)
          (back_off-Retried env (tick s) _ _
            (switch_node_locked-Settled F sorting env (tick s) _).0)),
  )
