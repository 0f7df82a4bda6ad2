-- ===== src/Listener/Traffic/Sums.antt =====
-- The traffic counters of src/listener.rs against sums over the history of calls.
use causeway.Prelude.{
  ℕ, ◌+◌, ◌≡◌, refl, ◌&&◌, Option, none, some, List, [], ◌∷◌, min, if◌then◌else◌, arith,
}
use causeway.Prelude.Text.{Text, is_text, is_text_iff, text_eq, text_eq_iff}
use causeway.Prelude.Map.{get, get-nil, get-insert}
use causeway.Listener.Traffic.{
  NodeTraffic, TrafficState, u64_max, empty, or_default, count, add, snapshot, select_subscription,
}

pub data Call : Type 0 where
  adds : Text → Text → ℕ → ℕ → Call
  selects : Text → Call

pub step : TrafficState → Call → TrafficState
step state (adds subscription node up down) = add state subscription node up down
step state (selects subscription) = select_subscription state subscription

-- The state after a history, newest call first.
pub after : List Call → TrafficState
after [] = empty
after (c ∷ history) = step (after history) c

-- The namespace that a history has selected.
pub selected : List Call → Option Text
selected [] = none
selected (adds s n up down ∷ history) = selected history
selected (selects s ∷ history) = some s

-- The bytes that a history has carried for a node since its namespace was last changed.
pub carried : (Call → ℕ) → Text → List Call → ℕ
carried bytes node [] = 0
carried bytes node (adds s n up down ∷ history) =
    carried bytes node history
    + (if is_text (selected history) s && text_eq n node then bytes (adds s n up down) else 0)
carried bytes node (selects s ∷ history) =
    if is_text (selected history) s then carried bytes node history else 0

abbrev pub ups : Call → ℕ
ups (adds s n up down) = up
ups (selects s) = 0

abbrev pub downs : Call → ℕ
downs (adds s n up down) = down
downs (selects s) = 0

after-selected : (history : List Call) → (after history).subscription ≡ selected history
unfolding after step selected add select_subscription
after-selected [] = refl
after-selected (adds s n up down ∷ history) = ground (arith, after-selected history)
after-selected (selects s ∷ history) = ground (arith, is_text_iff (after history).subscription s)

-- For every history of calls, the counters of a node are the sums of the bytes that were added for
-- it under the selected subscription since that subscription was selected, held at `u64::MAX`.
pub snapshot-sums :
    (history : List Call) (node : Text)
    → let t = or_default (get node (snapshot (after history))) in
      (t.up ≡ min (carried ups node history) u64_max)
      × (t.down ≡ min (carried downs node history) u64_max)
unfolding snapshot after step carried add select_subscription
snapshot-sums [] node = rw (get-nil node) (omega arith, omega arith)
snapshot-sums (adds s n up down ∷ history) node = ground (
  arith,
  after-selected history,
  text_eq_iff n node,
  get-insert n node (count (or_default (get n (after history).nodes)) up down)
      (after history).nodes,
  snapshot-sums history node,
)
snapshot-sums (selects s ∷ history) node =
    ground
      (arith, after-selected history, get-nil {V = NodeTraffic} node, snapshot-sums history node)
