-- ===== src/Listener/Traffic.antt =====
-- Per-node byte counters (src/listener.rs, `TrafficCounters`).
pub mod Sums
use causeway.Prelude.{
  ℕ, ◌+◌, ◌-◌, ◌^◌, ◌≡◌, Bool, false, Option, none, some, List, [], ◌∷◌, min, if◌then◌else◌, arith,
}
use causeway.Prelude.Text.{Text, is_text, is_text_iff, text_eq}
use causeway.Prelude.Map.{Map, get, insert}

abbrev pub u64_max : ℕ
u64_max = 2 ^ 64 - 1

abbrev pub saturating_add : ℕ → ℕ → ℕ
saturating_add a b = min (a + b) u64_max

-- `NodeTraffic` of src/control.rs.
pub record NodeTraffic : Type 0 where
  pub up : ℕ
  pub down : ℕ

abbrev pub no_traffic : NodeTraffic
no_traffic = record { up = 0; down = 0 }

pub record TrafficState : Type 0 where
  pub subscription : Option Text
  pub nodes : Map NodeTraffic

abbrev pub empty : TrafficState
empty = record { subscription = none; nodes = [] }

-- `entry(node).or_default()`
abbrev pub or_default : Option NodeTraffic → NodeTraffic
or_default none = no_traffic
or_default (some t) = t

abbrev count : NodeTraffic → ℕ → ℕ → NodeTraffic
count t up down = record { up = saturating_add t.up up; down = saturating_add t.down down }

pub add : TrafficState → Text → Text → ℕ → ℕ → TrafficState
add state subscription node up down =
    if is_text state.subscription subscription
    then record state {
      nodes = insert node (count (or_default (get node state.nodes)) up down) state.nodes;
    }
    else state

pub add_foreign :
    (state : TrafficState) (subscription node : Text) (up down : ℕ)
    → is_text state.subscription subscription ≡ false
    → add state subscription node up down ≡ state
unfolding add
add_foreign state subscription node up down h = rw h

pub snapshot : TrafficState → Map NodeTraffic
snapshot state = state.nodes

pub select_subscription : TrafficState → Text → TrafficState
select_subscription state subscription =
    if is_text state.subscription subscription
    then state
    else record { subscription = some subscription; nodes = [] }

pub select_subscription-subscription :
    (state : TrafficState) (subscription : Text)
    → (select_subscription state subscription).subscription ≡ some subscription
unfolding select_subscription
select_subscription-subscription state subscription =
    ground (arith, is_text_iff state.subscription subscription)
