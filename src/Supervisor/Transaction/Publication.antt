-- ===== src/Supervisor/Transaction/Publication.antt =====
-- The state that the transaction commits, and the publication (src/supervisor.rs,
-- `switch_subscription_locked` from `planned` on).
pub mod Published
use causeway.Prelude.{
  ℕ, ◌+◌, ◌%◌, ◌^◌, ◌≡◌, Bool, true, false, Option, none, some, List, [], ◌∷◌, ◌++◌, length,
  if◌then◌else◌,
}
use causeway.Prelude.Text.{Text, codes}
use causeway.Prelude.Map.{Map, get, insert}
use causeway.Prelude.Int.{ℤ}
use causeway.Events.{push}
use causeway.Listener.Conn.{ClassRoute}
use causeway.Listener.Traffic.{select_subscription}
use causeway.State.{
  ClassState, StateFile, fold_left, apply_subscription_catalog, activate_subscription,
}
use causeway.Subscription.{Node, name}
use causeway.Supervisor.Backoff.{reset}
use causeway.Supervisor.Activation.{
  ActiveNode, ClassRuntime, Event, switched, subscription_changed, retire, clear_failures, or_else,
}
use causeway.Supervisor.Transaction.Daemon.{Catalog, SubscriptionRuntime, Daemon, Outside}

-- `guards.iter().zip(staged.iter())`
pub zip : {A B : Type 0} → List A → List B → List (A × B)
zip [] bs = []
zip (a ∷ as') [] = []
zip (a ∷ as') (b ∷ bs) = (a, b) ∷ zip as' bs

abbrev pub next_generation : ClassRuntime → ℕ
next_generation rt = (rt.route.generation + 1) % 2 ^ 64

abbrev no_class : ClassState
no_class = record { active_node = none; socks_port = none; http_port = none; generation = 0 }

pub published_route : Text → ClassRuntime → ActiveNode → ClassRoute
published_route target rt a = record {
  socks_upstream = some a.socks_addr;
  http_upstream = some a.http_addr;
  node_name = name a.node;
  generation = next_generation rt;
  path_connections = some a.handle;
  traffic_subscription = target;
}

pub publish_class : Text → ClassRuntime × ActiveNode → ClassRuntime
unfolding published_route
publish_class target (rt, a) = record rt {
  route = published_route target rt a;
  active = some a;
  auto_recovery = reset;
  health_failures = 0;
}

abbrev pub each : {A B : Type 0} → (A → B) → List A → List B
each f [] = []
each f (a ∷ as') = f a ∷ each f as'

pub retire_all : List (ClassRuntime × ActiveNode) → List ActiveNode → List ActiveNode
retire_all [] draining = draining
retire_all ((rt, a) ∷ pairs) draining = retire_all pairs (retire rt.active draining)

abbrev switched_event : ℤ → ClassRuntime × ActiveNode → Event
switched_event now (rt, a) =
    switched now rt.name (name a.node) (codes "subscription-change") (next_generation rt)

module _ {F64 : Type 0} where
  -- Staged ports are not persisted before the publication.
  pub plan_class : StateFile F64 → ClassRuntime × ActiveNode → StateFile F64
  plan_class st (rt, a) = record st {
    classes =
        insert rt.name
          (record {
            active_node = some (name a.node);
            socks_port = none;
            http_port = none;
            generation = next_generation rt;
          })
          st.classes;
    nodes = clear_failures (name a.node) st.nodes (get (name a.node) st.nodes);
  }

  confirm_slot : StateFile F64 → Text → Option Text → StateFile F64
  confirm_slot st target none = st
  confirm_slot st target (some slot) = record st {
    subscription_cache_slots = insert target slot st.subscription_cache_slots;
  }

  pub next_state :
      StateFile F64
      → Map Text
      → Map Text
      → Text
      → Bool
      → Option Text
      → List (ClassRuntime × ActiveNode)
      → ℤ
      → StateFile F64
  unfolding confirm_slot plan_class
  next_state st previous_identities next_identities target fresh slot planned now =
      let reloaded =
        apply_subscription_catalog st previous_identities next_identities
          (if fresh then some target else none) in
      let activated = (activate_subscription reloaded target).0 in
      record (fold_left plan_class (confirm_slot activated target slot) planned) {
        updated_unix = now;
      }

  pub set_ports : StateFile F64 → ClassRuntime × ActiveNode → StateFile F64
  set_ports st (rt, a) = record st {
    classes =
        insert rt.name
          (record (or_else (get rt.name st.classes) no_class) {
            socks_port = some a.socks_addr.port;
            http_port = some a.http_addr.port;
          })
          st.classes;
  }

  -- `save_state` after the publication.
  unfoldable pub resave : Bool → StateFile F64 → Option (StateFile F64) → Option (StateFile F64)
  resave saved st committed = if saved then some st else committed

  -- Everything that becomes visible under the route locks, and what follows it. `st` is the state
  -- that was committed.
  unfoldable pub publish :
      Outside F64
      → Daemon F64
      → Text
      → Catalog
      → List Node
      → Bool
      → List (ClassRuntime × ActiveNode)
      → StateFile F64
      → ℤ
      → Daemon F64
  unfolding set_ports publish_class retire_all resave push
  publish out d target catalog nodes refreshed pairs st now =
      let live = fold_left set_ports st pairs in
      let runtime = d.subscriptions in
      record d {
        clock = d.clock + 1;
        draining = retire_all pairs d.draining;
        events =
            push (fold_left push d.events (each (switched_event now) pairs))
              (subscription_changed now runtime.active target (length nodes) refreshed);
        state = live;
        committed = resave (out.save_state d.clock) live (some st);
        classes = each (publish_class target) pairs;
        subscriptions = record {
          active = target;
          nodes = nodes;
          catalog = catalog;
          generation = (runtime.generation + 1) % 2 ^ 64;
        };
        traffic = select_subscription d.traffic target;
      }
