-- ===== src/Egress/Debounce.antt =====
-- What the observer of src/egress.rs delivers: debounced changes, spaced by the cooldown.
use causeway.Prelude.{
  ℕ, ◌-◌, ◌≤◌, ◌≡◌, refl, subst, inl, inr, ◌⊎◌, true, false, Option, none, some, List, [], ◌∷◌,
  if◌then◌else◌, arith, Option-cases, is_some, ◌∙◌,
}
use causeway.Egress.Routes.{EgressSignature, DefaultRoute, route_cmp_sound, has_default_route}
use causeway.Egress.Observer.{StableEgressObserver, signature_eq, new, routes_eq, cooling, observe}

-- A history of observations, newest first.
abbrev pub History : Type 0
History = List (EgressSignature × ℕ)

unfoldable pub observer : ℕ → ℕ → History → StableEgressObserver
observer stable_for cooldown [] = new stable_for cooldown
observer stable_for cooldown ((s, now) ∷ h) = (observe (observer stable_for cooldown h) s now).0

-- `head?` on a list of times.
abbrev head? : List ℕ → Option ℕ
head? [] = none
head? (t ∷ ts) = some t

routes_eq_sound : (rs ss : List DefaultRoute) → routes_eq rs ss ≡ true → rs ≡ ss
routes_eq_sound [] [] h = refl
routes_eq_sound [] (s ∷ ss) h = cc
routes_eq_sound (r ∷ rs) [] h = cc
routes_eq_sound (r ∷ rs) (s ∷ ss) h = ground (arith, route_cmp_sound r s, routes_eq_sound rs ss)

signature_eq_sound : (a b : EgressSignature) → signature_eq a b ≡ true → a ≡ b
unfolding signature_eq
signature_eq_sound a b h =
    ground (arith, routes_eq_sound a.ipv4 b.ipv4, routes_eq_sound a.ipv6 b.ipv6)

-- The newest observations of a history, back to one at time `since`, all saw this signature.
abbrev pub Steady : EgressSignature → ℕ → History → Type 0
Steady s since [] = ⊥
Steady s since ((seen, at) ∷ h) = (seen ≡ s) × ((at ≡ since) ⊎ Steady s since h)

record Inv (stable_for cooldown : ℕ) (o : StableEgressObserver) (h : History) : Type 0 where
  stable_kept : o.stable_for ≡ stable_for
  cooldown_kept : o.cooldown ≡ cooldown
  unstarted : o.baseline ≡ none → o.candidate ≡ none
  steady : (c : EgressSignature) (t : ℕ) → o.candidate ≡ some (c, t) → Steady c t h

-- What a delivery shows of the history.
abbrev pub Debounced : ℕ → EgressSignature → ℕ → History → EgressSignature → Type 0
Debounced stable_for s now h d =
    (d ≡ s)
    × (has_default_route s ≡ true)
    × ((since : ℕ) × Steady s since ((s, now) ∷ h) × (stable_for ≤ now - since))

observe-Inv :
    (stable_for cooldown : ℕ) (o : StableEgressObserver) (h : History) (s : EgressSignature)
    (now : ℕ)
    → Inv stable_for cooldown o h
    → Inv stable_for cooldown (observe o s now).0 ((s, now) ∷ h)
unfolding observe
observe-Inv stable_for cooldown o h s now v = record {
  stable_kept = ground (arith, v.stable_kept);
  cooldown_kept = ground (arith, v.cooldown_kept);
  unstarted = λ e. ground arith;
  steady = λ c t e. ground (arith, v.steady c t, signature_eq_sound c s);
}

observer-Inv :
    (stable_for cooldown : ℕ) (h : History)
    → Inv stable_for cooldown (observer stable_for cooldown h) h
unfolding observer new
observer-Inv stable_for cooldown [] = record {
  stable_kept = refl;
  cooldown_kept = refl;
  unstarted = λ e. refl;
  steady = λ c t e. cc;
}
observer-Inv stable_for cooldown ((s, now) ∷ h) =
    observe-Inv stable_for cooldown (observer stable_for cooldown h) h s now
      (observer-Inv stable_for cooldown h)

-- How one observation comes to deliver.
observe_inversion :
    (o : StableEgressObserver) (s : EgressSignature) (now : ℕ) (d : EgressSignature)
    → (observe o s now).1 ≡ some d
    → (since : ℕ) × (o.candidate ≡ some (d, since))
      × (d ≡ s)
      × (has_default_route d ≡ true)
      × (o.stable_for ≤ now - since)
      × (cooling o.last_transition now o.cooldown ≡ false)
      × ((observe o s now).0.last_transition ≡ some now)
unfolding observe
observe_inversion o s now d e = elim (Option-cases o.candidate) [
  | inl none_yet ↦ absurd (ground arith)
  | inr ((c, since), seen) ↦ (
    since,
    ground arith,
    ground (arith, signature_eq_sound c s),
    ground arith,
    ground arith,
    ground arith,
    ground arith,
  )
]

-- A delivered transition is the signature just observed, it has a default route, and it was the
-- only signature seen from a time at least the stability window ago until now.
pub observe-Debounced :
    (stable_for cooldown : ℕ) (h : History) (s : EgressSignature) (now : ℕ) (d : EgressSignature)
    → (observe (observer stable_for cooldown h) s now).1 ≡ some d
    → Debounced stable_for s now h d
observe-Debounced stable_for cooldown h s now d e =
    let v = observer-Inv stable_for cooldown h in
    let i = observe_inversion (observer stable_for cooldown h) s now d e in
    (
      i.2,
      subst (λ x. has_default_route x ≡ true) i.2 i.3,
      (
        i.0,
        (refl, inr (subst (λ x. Steady x i.0 h) i.2 (v.steady d i.0 i.1))),
        subst (λ n. n ≤ now - i.0) v.stable_kept i.4,
      ),
    )

-- Times that go down the list by the cooldown at least.
abbrev pub Spaced : ℕ → List ℕ → Type 0
Spaced cooldown [] = Unit {0}
Spaced cooldown (u ∷ []) = Unit {0}
Spaced cooldown (u ∷ t ∷ ts) = (cooldown ≤ u - t) × Spaced cooldown (t ∷ ts)

pub delivery_times : ℕ → ℕ → History → List ℕ
delivery_times stable_for cooldown [] = []
delivery_times stable_for cooldown ((s, now) ∷ h) =
    let earlier = delivery_times stable_for cooldown h in
    if is_some (observe (observer stable_for cooldown h) s now).1 then now ∷ earlier else earlier

observe_silent :
    (o : StableEgressObserver) (s : EgressSignature) (now : ℕ)
    → (observe o s now).1 ≡ none
    → (observe o s now).0.last_transition ≡ o.last_transition
unfolding observe
observe_silent o s now e = ground arith

delivery_times-last :
    (stable_for cooldown : ℕ) (h : History)
    → (observer stable_for cooldown h).last_transition
      ≡ head? (delivery_times stable_for cooldown h)
unfolding observer delivery_times new
delivery_times-last stable_for cooldown [] = refl
delivery_times-last stable_for cooldown ((s, now) ∷ h) =
    let o = observer stable_for cooldown h in
    elim (Option-cases (observe o s now).1) [
      | inl e ↦ rw e (observe_silent o s now e ∙ delivery_times-last stable_for cooldown h)
      | inr (d, e) ↦ rw e (observe_inversion o s now d e).6
    ]

Spaced-cons :
    (cooldown now : ℕ) (ts : List ℕ)
    → cooling (head? ts) now cooldown ≡ false
    → Spaced cooldown ts
    → Spaced cooldown (now ∷ ts)
Spaced-cons cooldown now [] h k = tt
Spaced-cons cooldown now (t ∷ ts) h k = (ground arith, k)

-- Over any history of observations, two transitions are delivered at least one cooldown apart.
pub delivery_times-Spaced :
    (stable_for cooldown : ℕ) (h : History) → Spaced cooldown (delivery_times stable_for cooldown h)
unfolding delivery_times
delivery_times-Spaced stable_for cooldown [] = tt
delivery_times-Spaced stable_for cooldown ((s, now) ∷ h) =
    let o = observer stable_for cooldown h in
    elim (Option-cases (observe o s now).1) [
      | inl e ↦ rw e (delivery_times-Spaced stable_for cooldown h)
      | inr (d, e) ↦ rw e (
          Spaced-cons cooldown now (delivery_times stable_for cooldown h)
            (subst (λ l. cooling l now cooldown ≡ false) (delivery_times-last stable_for cooldown h)
              (subst (λ c. cooling o.last_transition now c ≡ false)
                (observer-Inv stable_for cooldown h).cooldown_kept
                (observe_inversion o s now d e).5))
            (delivery_times-Spaced stable_for cooldown h))
    ]
