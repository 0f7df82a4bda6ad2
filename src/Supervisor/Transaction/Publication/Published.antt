-- ===== src/Supervisor/Transaction/Publication/Published.antt =====
-- What the publication leaves (src/supervisor.rs, `switch_subscription_locked`).
use causeway.Prelude.{
  ◌≡◌, refl, ◌∙◌, Bool, true, Option, none, some, List, [], ◌∷◌, length, all, arith,
}
use causeway.Prelude.Text.{Text}
use causeway.Prelude.Map.{Map}
use causeway.Prelude.Int.{ℤ}
use causeway.State.{StateFile, fold_left}
use causeway.State.Activate.{activate_subscription-active}
use causeway.Subscription.{Node, name}
use causeway.Supervisor.Backoff.{reset}
use causeway.Supervisor.Candidates.Profile.{offers}
use causeway.Supervisor.Activation.{ActiveNode, ClassRuntime}
use causeway.Supervisor.Transaction.Publication.{
  zip, plan_class, confirm_slot, next_state, set_ports, publish_class, each,
}

-- A class that serves a node of this list for this subscription: its route leads to the data planes
-- of its active node and charges the subscription, and its failures are forgotten.
pub record Serves (target : Text) (nodes : List Node) (rt : ClassRuntime) : Type 0 where
  pub path : ActiveNode
  pub active : rt.active ≡ some path
  pub offered : offers (name path.node) nodes ≡ true
  pub socks : rt.route.socks_upstream ≡ some path.socks_addr
  pub http : rt.route.http_upstream ≡ some path.http_addr
  pub named : rt.route.node_name ≡ name path.node
  pub leased : rt.route.path_connections ≡ some path.handle
  pub charged : rt.route.traffic_subscription ≡ target
  pub clean : (rt.auto_recovery ≡ reset) × (rt.health_failures ≡ 0)

abbrev pub AllServe : Text → List Node → List ClassRuntime → Type 0
AllServe target nodes [] = Unit {0}
AllServe target nodes (rt ∷ rts) = Serves target nodes rt × AllServe target nodes rts

pub publish_class-AllServe :
    (target : Text) (nodes : List Node) (rts : List ClassRuntime) (staged : List ActiveNode)
    → all (λ a. offers (name a.node) nodes) staged ≡ true
    → AllServe target nodes (each (publish_class target) (zip rts staged))
unfolding zip publish_class
publish_class-AllServe target nodes [] staged h = tt
publish_class-AllServe target nodes (rt ∷ rts) [] h = tt
publish_class-AllServe target nodes (rt ∷ rts) (a ∷ staged) h = (
  record {
    path = a;
    active = refl;
    offered = ground arith;
    socks = refl;
    http = refl;
    named = refl;
    leased = refl;
    charged = refl;
    clean = (refl, refl);
  },
  publish_class-AllServe target nodes rts staged (ground arith),
)

pub length-published :
    (target : Text) (rts : List ClassRuntime) (staged : List ActiveNode)
    → length staged ≡ length rts
    → length (each (publish_class target) (zip rts staged)) ≡ length rts
unfolding zip
length-published target [] staged h = refl
length-published target (rt ∷ rts) [] h = absurd (omega arith)
length-published target (rt ∷ rts) (a ∷ staged) h =
    omega (arith, length-published target rts staged (omega arith))

module _ {F64 : Type 0} where
  planned-active :
      (planned : List (ClassRuntime × ActiveNode)) (st : StateFile F64)
      → (fold_left plan_class st planned).active_subscription ≡ st.active_subscription
  unfolding plan_class
  planned-active [] st = refl
  planned-active ((rt, a) ∷ planned) st = planned-active planned (plan_class st (rt, a))

  pub ports-active :
      (pairs : List (ClassRuntime × ActiveNode)) (st : StateFile F64)
      → (fold_left set_ports st pairs).active_subscription ≡ st.active_subscription
  unfolding set_ports
  ports-active [] st = refl
  ports-active ((rt, a) ∷ pairs) st = ports-active pairs (set_ports st (rt, a))

  confirm_slot-active :
      (st : StateFile F64) (target : Text) (slot : Option Text)
      → (confirm_slot st target slot).active_subscription ≡ st.active_subscription
  unfolding confirm_slot
  confirm_slot-active st target none = refl
  confirm_slot-active st target (some slot) = refl

  pub next_state-active :
      (st : StateFile F64) (previous next : Map Text) (target : Text) (fresh : Bool)
      (slot : Option Text) (planned : List (ClassRuntime × ActiveNode)) (now : ℤ)
      → (next_state st previous next target fresh slot planned now).active_subscription
        ≡ some target
  unfolding next_state
  next_state-active st previous next target fresh slot planned now =
      planned-active planned _
      ∙ confirm_slot-active _ target slot
      ∙ activate_subscription-active _ target
