-- ===== src/Supervisor/Transaction/Daemon.antt =====
-- The shared state of src/supervisor.rs that the change of the subscription works on (`Ctx`,
-- `SubscriptionRuntime`), and how a failure is reported.
use causeway.Prelude.{ℕ, ◌+◌, Bool, Option, List}
use causeway.Prelude.Text.{Text, codes}
use causeway.Prelude.Map.{Map}
use causeway.Prelude.Int.{ℤ}
use causeway.Prelude.Result.{Result, err}
use causeway.Events.{EventLog, push}
use causeway.Listener.Traffic.{TrafficState}
use causeway.State.{StateFile}
use causeway.State.Persist.{StateError, SaveOutcome}
use causeway.Subscription.{Node}
use causeway.Subscription.Cache.{Files, PreparedProfile}
use causeway.Supervisor.Activation.{
  ActiveNode, ClassRuntime, Event, subscription_change_failed, Env, Sys,
}

-- `SubscriptionsConfig`: each profile with its `source_identity()`, if that succeeds.
abbrev pub Catalog : Type 0
Catalog = Map (Option Text)

pub record SubscriptionRuntime : Type 0 where
  pub active : Text
  pub nodes : List Node
  pub catalog : Catalog
  pub generation : ℕ

-- `committed` is the state that the state file holds; `classes` stand in the order of their names;
-- `files` are the cache files. The other fields are those of `Sys`.
pub record Daemon (F64 : Type 0) : Type 0 where
  pub clock : ℕ
  pub attempts : ℕ
  pub running : List ℕ
  pub draining : List ActiveNode
  pub events : EventLog Event
  pub state : StateFile F64
  pub committed : Option (StateFile F64)
  pub classes : List ClassRuntime
  pub subscriptions : SubscriptionRuntime
  pub traffic : TrafficState
  pub files : Files

-- What applies to each class, and the answers of the outside: `late` says whether a wait ends by
-- the deadline of the transaction.
pub record Outside (F64 : Type 0) : Type 0 where
  pub class_env : Text → Env F64
  pub prepare_profile : ℕ → Text → Option PreparedProfile
  pub load_snapshot : ℕ → Text → Option Text → List Node
  pub late : ℕ → Bool
  pub save_private_cache : ℕ → Bool
  pub commit_outcome : ℕ → Result StateError SaveOutcome
  pub save_state : ℕ → Bool  -- whether the diagnostic save succeeds
  pub now_unix : ℕ → ℤ

-- The messages of the replies.
pub data Failure : Type 0 where
  unknown_profile invalid_source_identity timed_out preparation_failed node_limit : Failure
  reload_aborted no_candidate cache_commit_failed state_commit_failed : Failure

pub message : Failure → Text
message unknown_profile = codes "unknown subscription profile"
message invalid_source_identity = codes "invalid subscription source identity"
message timed_out = codes "subscription transaction timed out before commit"
message preparation_failed = codes "subscription preparation failed"
message node_limit = codes "subscription node-count limit exceeded"
message reload_aborted = codes "reload aborted: active subscription changed"
message no_candidate = codes "no candidate passed pre-check for a class"
message cache_commit_failed = codes "subscription cache commit failed"
message state_commit_failed = codes "subscription state commit failed"

pub record SubscriptionSwitchOutcome : Type 0 where
  pub previous : Text
  pub active : Text
  pub node_count : ℕ
  pub refreshed : Bool

abbrev pub Reply : Type 0
Reply = Result Failure SubscriptionSwitchOutcome

module _ {F64 : Type 0} where
  abbrev pub tick : Daemon F64 → Daemon F64
  tick d = record d { clock = d.clock + 1 }

  unfoldable pub subscription_failure :
      Outside F64 → Daemon F64 → Text → Failure → Reply × Daemon F64
  unfolding push
  subscription_failure out d profile failure = (
    err failure,
    record d {
      clock = d.clock + 1;
      events =
          push d.events
            (subscription_change_failed (out.now_unix d.clock) profile (message failure));
    },
  )

  -- One class as `try_activate` sees it.
  abbrev pub sys : Daemon F64 → ClassRuntime → Sys F64
  sys d rt = record {
    clock = d.clock;
    attempts = d.attempts;
    running = d.running;
    draining = d.draining;
    events = d.events;
    state = d.state;
    saved = d.committed;
    rt = rt;
  }

  -- What an attempt changes of the daemon.
  abbrev pub with_sys : Daemon F64 → Sys F64 → Daemon F64
  with_sys d s = record d { clock = s.clock; attempts = s.attempts; running = s.running }
