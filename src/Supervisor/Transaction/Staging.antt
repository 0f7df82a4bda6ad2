-- ===== src/Supervisor/Transaction/Staging.antt =====
-- Staging a path for each class (src/supervisor.rs, `switch_subscription_locked` and `stop_staged`).
-- A `stop` that fails is only logged there, and the process is killed when its handle is dropped
-- (`kill_on_drop`), as is the attempt that the deadline cuts off; here both leave nothing running.
pub mod Staged
pub mod Everyone
use causeway.Prelude.{
  ℕ, ◌+◌, ◌≡◌, Bool, true, false, Option, none, some, List, [], ◌∷◌, ◌++◌, take, if◌then◌else◌,
}
use causeway.Prelude.Text.{Text}
use causeway.Prelude.Result.{Result, ok, err}
use causeway.Listener.Paths.{remove_one}
use causeway.Score.{Float}
use causeway.State.{Stats}
use causeway.Subscription.{Node, name}
use causeway.Supervisor.Candidates.{Sorting, profile_candidates}
use causeway.Supervisor.Activation.{ActiveNode, ClassRuntime, Env, try_activate}
use causeway.Supervisor.Switching.{max_switch_candidates, active_name}
use causeway.Supervisor.Transaction.Daemon.{
  Daemon, Outside, Failure, timed_out, no_candidate, tick, sys, with_sys,
}

module _ {F64 : Type 0} where
  pub stop_staged : Daemon F64 → List ActiveNode → Daemon F64
  stop_staged d [] = d
  stop_staged d (a ∷ staged) =
      stop_staged (record d { running = remove_one a.handle d.running }) staged

  abbrev pub advance : Daemon F64 → ℕ → Daemon F64
  advance d clock = record d { clock = clock }

  -- The candidates of one class, under the deadline. An attempt that the deadline cuts off is
  -- dropped with its data plane.
  pub stage_from :
      Outside F64 → Daemon F64 → ClassRuntime → List Node → Result Failure ActiveNode × Daemon F64
  stage_from out d rt [] = (err no_candidate, d)
  stage_from out d rt (candidate ∷ candidates) =
      let (r, s) = try_activate (out.class_env rt.name) (sys d rt) candidate in
      elim (out.late d.clock) [
        | true ↦ (err timed_out, advance d s.clock)
        | false ↦ elim r [
          | ok active ↦ (ok active, with_sys d s)
          | err e ↦ stage_from out (with_sys d s) rt candidates
        ]
      ]

module _ (F : Float) (sorting : Sorting Node) where
  -- The candidates for one class of a profile; `stats` are those of the profile, if its source is
  -- trusted.
  candidates_of : Outside F.F64 → ClassRuntime → List Node → Option (Stats F.F64) → Bool → List Node
  candidates_of out rt nodes stats refreshed = take max_switch_candidates (
      profile_candidates F sorting nodes stats (if refreshed then active_name rt.active else none)
        (if refreshed then (out.class_env rt.name).regions else []))

  -- One staged path for each class, in order; after a failure, those that are up are returned too.
  pub stage_all :
      Outside F.F64
      → Daemon F.F64
      → List ClassRuntime
      → List Node
      → Option (Stats F.F64)
      → Bool
      → List ActiveNode
      → Result Failure (List ActiveNode) × List ActiveNode × Daemon F.F64
  unfolding candidates_of stage_from
  stage_all out d [] nodes stats refreshed staged = (ok staged, staged, d)
  stage_all out d (rt ∷ rts) nodes stats refreshed staged =
      let (r, d') = stage_from out d rt (candidates_of out rt nodes stats refreshed) in
      elim r [
        | ok active ↦ stage_all out d' rts nodes stats refreshed (staged ++ active ∷ [])
        | err e ↦ (err e, staged, d')
      ]
