-- ===== src/Supervisor/Switching.antt =====
-- When a class changes its path (src/supervisor.rs): the recovery flow, the manual switch, the
-- switch for a site, the initial activation and the bookkeeping of health checks. The class lock is
-- held throughout.
pub mod Trail
pub mod Manual
pub mod Health
use causeway.Prelude.{
  ℕ, ◌+◌, ◌%◌, ◌^◌, ◌≡◌, Bool, true, false, not, ◌&&◌, ◌||◌, Option, none, some, List, [], ◌∷◌,
  ◌++◌, ltb, leb, min, take, filterb, find, is_some, if◌then◌else◌,
}
use causeway.Prelude.Text.{Text, codes, text_eq, is_text}
use causeway.Prelude.Map.{get, insert}
use causeway.Prelude.Result.{Result, ok, err}
use causeway.Events.{push}
use causeway.Score.{Float, NodeStats, default_stats, challenger_wins}
use causeway.State.{ClassState, Stats, StateFile}
use causeway.Subscription.{Node, name}
use causeway.Supervisor.Backoff.{AutoRecoveryBackoff, u32_max, is_ready_at, record_failure_at}
use causeway.Supervisor.Candidates.{Sorting, ranked_candidates, profile_candidates}
use causeway.Supervisor.Activation.{
  ActiveNode, ClassRuntime, Event, health_failed, Env, Sys, tick, or_else, try_activate,
  install_active, try_candidates,
}

abbrev pub max_switch_candidates : ℕ
max_switch_candidates = 5

pub data Rebuild : Type 0 where
  not_possible aborted failed : Rebuild

pub data Alternates : Type 0 where
  not_attempted failed : Alternates

pub path_tail : Bool → Text
path_tail true = codes "keeping current path"
path_tail false = codes "no active path to keep"

outcome : Alternates → Rebuild → Text
outcome Alternates.failed Rebuild.failed = codes "all candidates and current-node rebuild failed"
outcome Alternates.failed Rebuild.aborted =
    codes "all candidates failed and the current-node rebuild was aborted by shutdown"
outcome Alternates.failed Rebuild.not_possible =
    codes "all candidates failed and no current-node rebuild was attempted"
outcome Alternates.not_attempted Rebuild.failed = codes "the current-node rebuild failed"
outcome Alternates.not_attempted Rebuild.aborted =
    codes "the current-node rebuild was aborted by shutdown"
outcome Alternates.not_attempted Rebuild.not_possible = codes "no candidate was attempted"

pub recovery_headline : Alternates → Rebuild → Bool → Text
unfolding outcome path_tail
recovery_headline alternates rebuild path_active =
    outcome alternates rebuild ++ (codes ", " ++ path_tail path_active)

pub rebuild_outcome : Option Text → Rebuild
rebuild_outcome none = Rebuild.aborted
rebuild_outcome (some cause) = Rebuild.failed

pub alternates_outcome : Option Text → Alternates
alternates_outcome none = Alternates.not_attempted
alternates_outcome (some cause) = Alternates.failed

-- `rt.active.as_ref().map(|a| a.node.name())`
abbrev pub active_name : Option ActiveNode → Option Text
active_name none = none
active_name (some a) = some (name a.node)

abbrev pub incumbent : Option Text → List Node → Option Node
incumbent none pool = none
incumbent (some current) pool = find (λ n. text_eq (name n) current) pool

abbrev pub or : {A : Type 0} → Option A → Option A → Option A
or none b = b
or (some a) b = some a

-- How the recovery flow ends. `trail` is what its error line says: the two states, whether a path is
-- active, and the cause.
pub data Recovery : Type 0 where
  recovered : Recovery
  shut_down : Recovery
  trail : Alternates → Rebuild → Bool → Option Text → Recovery

pub record SwitchOutcome : Type 0 where
  pub requested : Text
  pub installed : Text
  pub fallback : Bool

-- `anyhow` errors of a manual switch. The flag is that of `path_tail`.
pub data SwitchError : Type 0 where
  unknown_node : Text → SwitchError
  not_activated : Bool → Text → SwitchError
  not_attempted : Bool → SwitchError

module _ (F : Float) (sorting : Sorting Node) where
  -- The ranked nodes that pass the test, five at most.
  pub alternates_of : Env F.F64 → Sys F.F64 → List Text → (Node → Bool) → List Node
  alternates_of env s regions keep =
      take max_switch_candidates
        (filterb keep (ranked_candidates F sorting env.pool s.state.nodes regions))

  give_up : Alternates → Rebuild → Option Text → Sys F.F64 → Recovery × Sys F.F64
  give_up alternates rebuild last_cause s =
      (trail alternates rebuild (is_some s.rt.active) last_cause, s)

  rebuild_with :
      Alternates → Option Text → Result (Option Text) Text × Sys F.F64 → Recovery × Sys F.F64
  unfolding give_up rebuild_outcome
  rebuild_with alternates last_cause (ok n, s) = (recovered, s)
  rebuild_with alternates last_cause (err cause, s) =
      give_up alternates (rebuild_outcome cause) (or cause last_cause) s

  rebuild_current :
      Env F.F64 → Alternates → Option Text → Option Node → Sys F.F64 → Recovery × Sys F.F64
  unfolding give_up rebuild_with
  rebuild_current env alternates last_cause none s =
      give_up alternates Rebuild.not_possible last_cause s
  rebuild_current env alternates last_cause (some current) s =
      rebuild_with alternates last_cause
        (try_candidates F env s (current ∷ []) (codes "path-recovery"))

  after_alternates :
      Env F.F64 → Option Node → Result (Option Text) Text × Sys F.F64 → Recovery × Sys F.F64
  unfolding rebuild_current alternates_outcome
  after_alternates env current_node (ok n, s) = (recovered, s)
  after_alternates env current_node (err cause, s) =
      if env.shutdown s.clock
      then (shut_down, tick s)
      else rebuild_current env (alternates_outcome cause) cause current_node (tick s)

  pub switch_node_locked : Env F.F64 → Sys F.F64 → Text → Recovery × Sys F.F64
  unfolding after_alternates alternates_of
  switch_node_locked env s reason =
      let current = active_name s.rt.active in
      let candidates = alternates_of env s env.regions (λ n. not (is_text current (name n))) in
      after_alternates env (incumbent current env.pool) (try_candidates F env s candidates reason)

  back_off : Env F.F64 → Recovery × Sys F.F64 → Sys F.F64
  back_off env (recovered, s) = s
  back_off env (_, s) = record s {
    clock = s.clock + 1;
    rt = record s.rt { auto_recovery = (record_failure_at s.rt.auto_recovery (env.now s.clock)).0 };
  }

  pub recover_after_health_failure : Env F.F64 → Sys F.F64 → Sys F.F64
  unfolding back_off switch_node_locked
  recover_after_health_failure env s =
      if is_some s.rt.active && not env.auto_switch
      then s
      else if not (is_ready_at s.rt.auto_recovery (env.now s.clock))
      then tick s
      else back_off env (switch_node_locked env (tick s) (codes "health-failures"))

  abbrev switch_failure : Bool → Option Text → SwitchError
  switch_failure path_active none = SwitchError.not_attempted path_active
  switch_failure path_active (some cause) = not_activated path_active cause

  after_fallback :
      Text
      → Option Text
      → Result (Option Text) Text × Sys F.F64
      → Result SwitchError SwitchOutcome × Sys F.F64
  after_fallback requested requested_cause (ok installed, s) =
      (ok (record { requested = requested; installed = installed; fallback = true }), s)
  after_fallback requested requested_cause (err last_cause, s) =
      (err (switch_failure (is_some s.rt.active) (or last_cause requested_cause)), s)

  after_requested :
      Env F.F64
      → Text
      → Option Text
      → Result (Option Text) Text × Sys F.F64
      → Result SwitchError SwitchOutcome × Sys F.F64
  unfolding after_fallback alternates_of
  after_requested env requested current (ok installed, s) =
      (ok (record { requested = requested; installed = installed; fallback = false }), s)
  after_requested env requested current (err requested_cause, s) =
      let candidates =
        alternates_of env s []
          (λ n. not (text_eq (name n) requested) && not (is_text current (name n))) in
      after_fallback requested requested_cause (try_candidates F env s candidates (codes "manual"))

  switch_to_node :
      Env F.F64 → Sys F.F64 → Text → Option Node → Result SwitchError SwitchOutcome × Sys F.F64
  unfolding after_requested
  switch_to_node env s requested none = (err (unknown_node requested), s)
  switch_to_node env s requested (some node) =
      let current = active_name s.rt.active in
      if is_text current requested
      then (ok (record { requested = requested; installed = requested; fallback = false }), s)
      else after_requested env requested current
          (try_candidates F env s (node ∷ []) (codes "manual"))

  pub switch_to : Env F.F64 → Sys F.F64 → Text → Result SwitchError SwitchOutcome × Sys F.F64
  unfolding switch_to_node
  switch_to env s requested =
      switch_to_node env s requested (find (λ n. text_eq (name n) requested) env.pool)

  -- One health check of the class. The second result says whether a path is active.
  pub record_health_outcome : Env F.F64 → Sys F.F64 → Bool → (ℕ × Bool) × Sys F.F64
  unfolding push
  record_health_outcome env s passed = elim (active_name s.rt.active) [
    | none ↦ ((env.fail_threshold, false), s)
    | some n ↦
        let stats = or_else (get n s.state.nodes) (default_stats F) in
        let failures = if passed then 0 else (stats.consecutive_health_failures + 1) % 2 ^ 32 in
        let streak = if passed then 0 else min (s.rt.health_failures + 1) u32_max in
        (
          (streak, true),
          record s {
            clock = if passed then s.clock else s.clock + 1;
            state = record s.state {
              nodes =
                  insert n (record stats { consecutive_health_failures = failures }) s.state.nodes;
            };
            rt = record s.rt { health_failures = streak };
            events =
                if not passed && ltb 0 streak
                then push s.events (health_failed (env.now_unix s.clock) s.rt.name n streak)
                else s.events;
          },
        )
  ]

  should_switch : F.F64 → Option (NodeStats F.F64) → Option (NodeStats F.F64) → Bool
  should_switch hysteresis (some c) (some i) = challenger_wins F c i hysteresis
  should_switch hysteresis (some c) none = true
  should_switch hysteresis none i = false

  challenge : Env F.F64 → F.F64 → Sys F.F64 → Text → Option Node → Sys F.F64
  unfolding switch_node_locked should_switch
  challenge env hysteresis s current none = s
  challenge env hysteresis s current (some challenger) =
      if not env.auto_switch
      then s
      else if should_switch hysteresis (get (name challenger) s.state.nodes)
          (get current s.state.nodes)
      then (switch_node_locked env s (codes "challenger-wins")).1
      else s

  probe_on : Env F.F64 → F.F64 → Sys F.F64 → Option Text → Sys F.F64
  unfolding challenge
  probe_on env hysteresis s none = s
  probe_on env hysteresis s (some current) = challenge env hysteresis s current (
      find (λ n. not (text_eq (name n) current))
        (ranked_candidates F sorting env.pool s.state.nodes env.regions))

  -- What a turn of the probe loop decides for one class once the probe cycle is over, on the
  -- statistics that the cycle has left. The cycle itself is not part of it.
  pub probe_decision : Env F.F64 → F.F64 → Sys F.F64 → Sys F.F64
  unfolding probe_on
  probe_decision env hysteresis s = probe_on env hysteresis s (active_name s.rt.active)

  -- One turn of the health loop, on the verdict of the samples: `none` is `Cancelled`.
  pub health_turn : Env F.F64 → Sys F.F64 → Option Bool → Sys F.F64
  unfolding record_health_outcome recover_after_health_failure
  health_turn env s none = s
  health_turn env s (some passed) =
      if env.shutdown s.clock
      then tick s
      else let ((failures, has_active), s') = record_health_outcome env (tick s) passed in
        if not passed && leb env.fail_threshold failures && not (env.shutdown s'.clock)
        then recover_after_health_failure env (tick s')
        else s'

  activate_from : Env F.F64 → Sys F.F64 → List Node → Sys F.F64
  activate_from env s [] = s
  activate_from env s (cand ∷ cands) =
      let (r, s') = try_activate env s cand in
      elim r [
        | ok active ↦ install_active env s' active (codes "initial")
        | err e ↦ activate_from env s' cands
      ]

  -- `st.classes.get(&rt.name).and_then(|c| c.active_node.clone())`
  recorded : Option ClassState → Option Text
  recorded none = none
  recorded (some c) = c.active_node

  pub activate_initial : Env F.F64 → Sys F.F64 → Sys F.F64
  unfolding activate_from recorded
  activate_initial env s = activate_from env s (
      profile_candidates F sorting env.pool (some s.state.nodes)
        (recorded (get s.rt.name s.state.classes)) env.regions)
