-- ===== src/Supervisor/Activation.antt =====
-- Activation of a path (src/supervisor.rs, `try_activate`, `install_active` and `try_candidates`) for
-- one class whose lock is held. What the outside answers is an argument: every question that the
-- code asks of it moves the clock on, and the answers are functions of the clock.
pub mod Moves
pub mod Attempts
pub mod Bounded
use causeway.Prelude.{
  ℕ, ◌+◌, ◌-◌, ◌%◌, ◌^◌, ◌≡◌, Bool, true, false, not, ◌&&◌, Option, none, some, List, [], ◌∷◌, ◌++◌,
  ltb, leb, if◌then◌else◌,
}
use causeway.Prelude.Text.{Text, codes}
use causeway.Prelude.Map.{get, insert}
use causeway.Prelude.Int.{ℤ}
use causeway.Prelude.Result.{Result, ok, err}
use causeway.Events.{EventLog, push}
use causeway.Listener.Conn.{SocketAddr, ClassRoute}
use causeway.Listener.Paths.{remove_one}
use causeway.Score.{Float, NodeStats, default_stats, record_probe}
use causeway.State.{ClassState, Stats, StateFile}
use causeway.Subscription.{Node, name}
use causeway.Supervisor.Backoff.{AutoRecoveryBackoff, reset}

-- The data plane of a path is named by the time of its start, as is its connection counter.
pub record ActiveNode : Type 0 where
  pub node : Node
  pub handle : ℕ
  pub socks_addr : SocketAddr
  pub http_addr : SocketAddr

pub record ClassRuntime : Type 0 where
  pub name : Text
  pub route : ClassRoute
  pub active : Option ActiveNode
  pub auto_recovery : AutoRecoveryBackoff
  pub health_failures : ℕ

-- The events of src/control.rs that the modelled code pushes.
pub data Event : Type 0 where
  switched : ℤ → Text → Text → Text → ℕ → Event
  activation_failed : ℤ → Text → Text → Text → Event
  health_failed : ℤ → Text → Text → ℕ → Event
  subscription_changed : ℤ → Text → Text → ℕ → Bool → Event
  subscription_change_failed : ℤ → Text → Text → Event

pub data Check : Type 0 where
  code : ℕ → Check
  check_failed : Text → Check

-- `StartSpec::reserve`, `plane.start` and `health::check_status`, in turn.
pub data Start : Type 0 where
  start_failed : Text → Start
  started : SocketAddr → SocketAddr → Check → Start

-- The configuration that applies to the class, and the answers of the outside.
pub record Env (F64 : Type 0) : Type 0 where
  pub pool : List Node
  pub regions : List Text
  pub auto_switch : Bool
  pub health_override : Bool
  pub ema_alpha : F64
  pub fail_threshold : ℕ
  pub subscription : Text
  pub start : ℕ → Node → Start
  pub bad_status : ℕ → Text  -- `format!("candidate path pre-check returned HTTP {code}")`
  pub shutdown : ℕ → Bool
  pub now_unix : ℕ → ℤ
  pub now : ℕ → ℕ

-- `attempts` counts the calls of `try_activate`; `running` are the data planes that were started and not stopped; `draining` are the retired
-- paths handed to `schedule_drain`; `saved` is the state that `save_state` was last given: whether the file was written is not part of
-- it, since the code only logs a failure and goes on.
pub record Sys (F64 : Type 0) : Type 0 where
  pub clock : ℕ
  pub attempts : ℕ
  pub running : List ℕ
  pub draining : List ActiveNode
  pub events : EventLog Event
  pub state : StateFile F64
  pub saved : Option (StateFile F64)
  pub rt : ClassRuntime

abbrev pub class_state : ActiveNode → ℕ → ClassState
class_state new_active generation = record {
  active_node = some (name new_active.node);
  socks_port = some new_active.socks_addr.port;
  http_port = some new_active.http_addr.port;
  generation = generation;
}

pub retire : Option ActiveNode → List ActiveNode → List ActiveNode
retire none draining = draining
retire (some old) draining = old ∷ draining

abbrev pub or_else : {A : Type 0} → Option A → A → A
or_else none a = a
or_else (some a) b = a

module _ {F64 : Type 0} where
  abbrev pub tick : Sys F64 → Sys F64
  tick s = record s { clock = s.clock + 1 }

  precheck : Env F64 → Sys F64 → Node → SocketAddr → SocketAddr → Check → Result Text ActiveNode
  precheck env s node socks http (code c) =
      if leb 200 c && ltb c 300
      then ok (record { node = node; handle = s.clock; socks_addr = socks; http_addr = http })
      else err (env.bad_status c)
  precheck env s node socks http (check_failed e) = err e

  -- `handle.stop()` when the check did not pass.
  settle : ℕ → Sys F64 → Result Text ActiveNode → Result Text ActiveNode × Sys F64
  unfolding remove_one
  settle handle s (ok active) = (ok active, s)
  settle handle s (err e) = (err e, record s { running = remove_one handle s.running })

  launch : Env F64 → Sys F64 → Node → Start → Result Text ActiveNode × Sys F64
  unfolding precheck settle
  launch env s node (start_failed e) =
      (err e, record s { clock = s.clock + 1; attempts = s.attempts + 1 })
  launch env s node (started socks http check) =
      settle s.clock
        (record s { clock = s.clock + 1; attempts = s.attempts + 1; running = s.clock ∷ s.running })
        (precheck env s node socks http check)

  pub try_activate : Env F64 → Sys F64 → Node → Result Text ActiveNode × Sys F64
  unfolding launch
  try_activate env s node = launch env s node (env.start s.clock node)

  pub published : Env F64 → ClassRoute → ActiveNode → ClassRoute
  published env route new_active = record {
    socks_upstream = some new_active.socks_addr;
    http_upstream = some new_active.http_addr;
    node_name = name new_active.node;
    generation = (route.generation + 1) % 2 ^ 64;
    path_connections = some new_active.handle;
    traffic_subscription = env.subscription;
  }

  abbrev pub clear_failures : Text → Stats F64 → Option (NodeStats F64) → Stats F64
  clear_failures n nodes none = nodes
  clear_failures n nodes (some stats) =
      insert n (record stats { consecutive_health_failures = 0 }) nodes

  record_switch : Env F64 → Sys F64 → ActiveNode → ℕ → StateFile F64
  record_switch env s new_active generation =
      let node_name = name new_active.node in
      record s.state {
        classes = insert s.rt.name (class_state new_active generation) s.state.classes;
        nodes = clear_failures node_name s.state.nodes (get node_name s.state.nodes);
        updated_unix = env.now_unix s.clock;
      }

  pub install_active : Env F64 → Sys F64 → ActiveNode → Text → Sys F64
  unfolding published record_switch retire push
  install_active env s new_active reason =
      let route = published env s.rt.route new_active in
      let state = record_switch env s new_active route.generation in
      record s {
        clock = s.clock + 2;
        draining = retire s.rt.active s.draining;
        events = push s.events (
            switched (env.now_unix (s.clock + 1)) s.rt.name (name new_active.node) reason
              route.generation);
        state = state;
        saved = some state;
        rt = record s.rt {
          route = route;
          active = some new_active;
          auto_recovery = reset;
          health_failures = 0;
        };
      }

module _ (F : Float) where
  record_failed : Env F.F64 → Sys F.F64 → Text → StateFile F.F64
  record_failed env s node = if env.health_override then s.state else record s.state {
    nodes =
        insert node
          (record_probe F (or_else (get node s.state.nodes) (default_stats F)) none env.ema_alpha
            (env.now_unix s.clock))
          s.state.nodes;
  }

  pub note_failure : Env F.F64 → Sys F.F64 → Node → Text → Sys F.F64
  unfolding record_failed push
  note_failure env s cand e = record s {
    clock = s.clock + 2;
    events = push s.events (activation_failed (env.now_unix (s.clock + 1)) s.rt.name (name cand) e);
    state = record_failed env s (name cand);
  }

  abbrev pub cause_of : Node → Text → Text
  cause_of cand e = name cand ++ (codes ": " ++ e)

  -- The loop over the candidates, with the last failure so far.
  pub try_from :
      Env F.F64 → Sys F.F64 → List Node → Text → Option Text → Result (Option Text) Text × Sys F.F64
  unfolding install_active note_failure try_activate
  try_from env s [] reason last_cause = (err last_cause, s)
  try_from env s (cand ∷ cands) reason last_cause = elim (env.shutdown s.clock) [
    | true ↦ (err last_cause, tick s)
    | false ↦
        let (r, s') = try_activate env (tick s) cand in
        elim r [
          | ok active ↦ (ok (name active.node), install_active env s' active reason)
          | err e ↦ try_from env (note_failure env s' cand e) cands reason (some (cause_of cand e))
        ]
  ]

  pub try_candidates :
      Env F.F64 → Sys F.F64 → List Node → Text → Result (Option Text) Text × Sys F.F64
  unfolding try_from
  try_candidates env s candidates reason = try_from env s candidates reason none
