-- ===== src/Egress/Observer.antt =====
-- The debouncing observer of the egress (src/egress.rs, `StableEgressObserver`). Times and durations
-- are nanoseconds; `duration_since` is zero for a time that lies ahead.
use causeway.Prelude.{
  ℕ, ◌-◌, Bool, true, false, ◌&&◌, Option, none, some, List, [], ◌∷◌, ltb, if◌then◌else◌,
}
use causeway.Egress.Routes.{DefaultRoute, EgressSignature, route_eq, has_default_route}

abbrev pub routes_eq : List DefaultRoute → List DefaultRoute → Bool
routes_eq [] [] = true
routes_eq [] (s ∷ ss) = false
routes_eq (r ∷ rs) [] = false
routes_eq (r ∷ rs) (s ∷ ss) = route_eq r s && routes_eq rs ss

-- The derived equality of signatures.
unfoldable pub signature_eq : EgressSignature → EgressSignature → Bool
signature_eq a b = routes_eq a.ipv4 b.ipv4 && routes_eq a.ipv6 b.ipv6

pub record StableEgressObserver : Type 0 where
  pub stable_for : ℕ
  pub cooldown : ℕ
  pub baseline : Option EgressSignature
  pub candidate : Option (EgressSignature × ℕ)
  pub last_transition : Option ℕ

unfoldable pub new : ℕ → ℕ → StableEgressObserver
new stable_for cooldown = record {
  stable_for = stable_for;
  cooldown = cooldown;
  baseline = none;
  candidate = none;
  last_transition = none;
}

-- `last_transition.is_some_and(|last| now.duration_since(last) < cooldown)`
abbrev pub cooling : Option ℕ → ℕ → ℕ → Bool
cooling none now cooldown = false
cooling (some last) now cooldown = ltb (now - last) cooldown

-- The candidate, if it is this signature.
abbrev pub matching : Option (EgressSignature × ℕ) → EgressSignature → Option (EgressSignature × ℕ)
matching none s = none
matching (some (c, first_seen)) s = if signature_eq c s then some (c, first_seen) else none

confirm : StableEgressObserver → EgressSignature → ℕ → StableEgressObserver × Option EgressSignature
confirm o confirmed now =
    if has_default_route confirmed
    then (
      record o { baseline = some confirmed; candidate = none; last_transition = some now },
      some confirmed,
    )
    else (record o { baseline = some confirmed; candidate = none }, none)

await_stable :
    StableEgressObserver
    → EgressSignature
    → ℕ
    → Option (EgressSignature × ℕ)
    → StableEgressObserver × Option EgressSignature
unfolding confirm
await_stable o s now none = (record o { candidate = some (s, now) }, none)
await_stable o s now (some (candidate, first_seen)) =
    if ltb (now - first_seen) o.stable_for then (o, none) else confirm o candidate now

after_baseline :
    StableEgressObserver
    → EgressSignature
    → ℕ
    → EgressSignature
    → StableEgressObserver × Option EgressSignature
unfolding await_stable
after_baseline o s now baseline =
    if signature_eq baseline s
    then (record o { candidate = none }, none)
    else if cooling o.last_transition now o.cooldown
    then (record o { baseline = some s; candidate = none }, none)
    else await_stable o s now (matching o.candidate s)

unfoldable pub observe :
    StableEgressObserver → EgressSignature → ℕ → StableEgressObserver × Option EgressSignature
unfolding after_baseline
observe o s now = elim o.baseline [
  | none ↦ (record o { baseline = some s }, none)
  | some baseline ↦ after_baseline o s now baseline
]
