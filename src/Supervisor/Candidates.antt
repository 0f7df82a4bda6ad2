-- ===== src/Supervisor/Candidates.antt =====
-- The ranking of candidate nodes (src/supervisor.rs, `ranked_candidates` and `profile_candidates`).
-- `sort_by` of the standard library is a parameter: it specifies its order only for comparisons
-- that are total orders, and of its result these proofs use that it rearranges its input.
pub mod Membership
pub mod Profile
use mathlib.Core.List.{Perm}
use causeway.Prelude.{
  Bool, true, false, not, ◌&&◌, ◌||◌, Option, none, some, List, [], ◌∷◌, ◌++◌, Ordering, any,
  filterb, find, if◌then◌else◌,
}
use causeway.Prelude.Text.{Text, text_eq, text_cmp}
use causeway.Prelude.Map.{get}
use causeway.Prelude.Parse.{contains_text}
use causeway.Score.{Float, NodeStats, is_probed, score_cmp}
use causeway.State.{Stats}
use causeway.Subscription.{Node, name}

pub record Sorting (A : Type 0) : Type 0 where
  pub sort_by : (A → A → Ordering) → List A → List A
  pub rearranges : (cmp : A → A → Ordering) (l : List A) → Perm (sort_by cmp l) l

-- `regions.is_empty() || regions.iter().any(|r| n.name().contains(r))`
pub in_regions : List Text → Node → Bool
in_regions [] n = true
in_regions (r ∷ rs) n = any (λ region. contains_text region (name n)) (r ∷ rs)

abbrev pub probed_in : {F64 : Type 0} → Option (NodeStats F64) → Bool
probed_in none = false
probed_in (some s) = is_probed s

-- A node whose name is not in the list yet goes to its end.
pub push_new : List Node → Node → List Node
push_new ordered node =
    if any (λ seen. text_eq (name seen) (name node)) ordered then ordered else ordered ++ node ∷ []

pub push_all : List Node → List Node → List Node
push_all ordered [] = ordered
push_all ordered (n ∷ ns) = push_all (push_new ordered n) ns

pub first_preferred : Option Text → List Node → List Node
first_preferred none pool = []
first_preferred (some preferred) pool = elim (find (λ n. text_eq (name n) preferred) pool) [
  | none ↦ []
  | some node ↦ node ∷ []
]

module _ (F : Float) (sorting : Sorting Node) where
  open sorting use {sort_by}

  -- `score_cmp(&stats[b], &stats[a])`. Both entries exist: only probed nodes are compared.
  by_score : Stats F.F64 → Node → Node → Ordering
  by_score stats a b = elim (get (name b) stats) [
    | none ↦ Ordering.eq
    | some sb ↦ elim (get (name a) stats) [ none ↦ Ordering.eq | some sa ↦ score_cmp F sb sa ]
  ]

  pub ranked_candidates : List Node → Stats F.F64 → List Text → List Node
  unfolding by_score in_regions
  ranked_candidates nodes stats regions =
      let probed = filterb (λ n. probed_in (get (name n) stats)) nodes in
      let kept = filterb (in_regions regions) probed in sort_by (by_score stats) kept

  abbrev stats_of : Option (Stats F.F64) → Node → Bool
  stats_of none node = false
  stats_of (some stats) node = probed_in (get (name node) stats)

  sort_probed : Option (Stats F.F64) → List Node → List Node
  sort_probed none probed = probed
  sort_probed (some stats) probed = sort_by (by_score stats) probed

  pub profile_candidates : List Node → Option (Stats F.F64) → Option Text → List Text → List Node
  unfolding in_regions push_all push_new sort_probed first_preferred
  profile_candidates nodes stats preferred regions =
      let pool = filterb (in_regions regions) nodes in
      let probed = sort_probed stats (filterb (stats_of stats) pool) in
      let unprobed =
        sort_by (λ a b. text_cmp (name a) (name b)) (filterb (λ n. not (stats_of stats n)) pool) in
      push_all (push_all (first_preferred preferred pool) probed) unprobed
