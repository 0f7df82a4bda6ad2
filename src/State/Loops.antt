-- ===== src/State/Loops.antt =====
-- The loops of src/state.rs over profile names and over the entries of a catalog, profile by profile.
use causeway.Prelude.{
  ◌≡◌, refl, ap, inl, inr, Bool, not, ◌&&◌, ◌||◌, Option, none, some, List, [], ◌∷◌, ◌++◌,
  if◌then◌else◌, any, filterb, arith, Bool-cases,
}
use causeway.Prelude.Text.{Text, text_eq, text_eq_iff}
use causeway.Prelude.Map.{Map, get, get-insert, contains_key, keys}
use causeway.State.{
  StateFile, set_of, fold_left, remove_subscription, persisted_names, remove_absent,
}
use causeway.State.Profile.{Profile, view, blank, view-remove}

-- The keys of a `BTreeMap` are distinct.
abbrev pub Distinct : {V : Type 0} → Map V → Type 0
Distinct [] = Unit {0}
Distinct ((k, v) ∷ m) = (get k m ≡ none) × Distinct m

abbrev pub named : Text → List Text → Bool
named j names = any (λ n. text_eq n j) names

named-append : (j : Text) (xs ys : List Text) → named j (xs ++ ys) ≡ named j xs || named j ys
named-append j [] ys = refl
named-append j (x ∷ xs) ys = ground (arith, named-append j xs ys)

named-keys : {V : Type 0} (j : Text) (m : Map V) → named j (keys m) ≡ contains_key j m
unfolding get
named-keys j [] = refl
named-keys j ((k, v) ∷ m) = ground (arith, named-keys j m)

set_of-contains : (j : Text) (l : List Text) → contains_key j (set_of l) ≡ named j l
unfolding get
set_of-contains j [] = refl
set_of-contains j (x ∷ l) = ground (arith, get-insert x j tt (set_of l), set_of-contains j l)

named-filterb :
    (j : Text) (p : Text → Bool) (l : List Text) → named j (filterb p l) ≡ named j l && p j
named-filterb j p [] = refl
named-filterb j p (x ∷ l) = elim (Bool-cases (text_eq x j)) [
  | inl e ↦ ground (arith, ap p ((text_eq_iff x j).0 e), named-filterb j p l)
  | inr e ↦ ground (arith, named-filterb j p l)
]

module _ {F64 : Type 0} where
  -- That some persisted map knows the name.
  abbrev pub known : StateFile F64 → Text → Bool
  known st j =
      contains_key j st.subscription_nodes
      || (contains_key j st.subscription_cache_slots
          || (contains_key j st.subscription_source_identities
              || contains_key j st.pending_subscription_sources))

  named-persisted : (st : StateFile F64) (j : Text) → named j (persisted_names st) ≡ known st j
  unfolding persisted_names
  named-persisted st j =
      rw
        (
          named-keys, set_of-contains, named-append, named-append, named-append, named-keys,
          named-keys, named-keys, named-keys,
        )
        refl

  view-remove_all :
      (names : List Text) (st : StateFile F64) (j : Text)
      → view (fold_left remove_subscription st names) j
        ≡ (if named j names then blank else view st j)
  view-remove_all [] st j = refl
  view-remove_all (n ∷ names) st j =
      ground (arith, view-remove_all names (remove_subscription st n) j, view-remove st n j)

  -- What removing the names that are absent from a catalog does to each profile.
  pub view-remove_absent :
      (st : StateFile F64) (next : Map Text) (j : Text)
      → view (remove_absent st next) j
        ≡ (if known st j && not (contains_key j next) then blank else view st j)
  unfolding remove_absent
  view-remove_absent st next j = rw (view-remove_all, named-filterb, named-persisted) refl

  -- A loop over the entries of a map, each of which changes its own profile only.
  abbrev pub at_entry :
      (Text → Text → Profile F64 → Profile F64) → Text → Option Text → Profile F64 → Profile F64
  at_entry g j none p = p
  at_entry g j (some i) p = g j i p

  abbrev pub Own :
      (StateFile F64 → Text × Text → StateFile F64)
      → (Text → Text → Profile F64 → Profile F64)
      → Type 0
  Own f g =
      (st : StateFile F64) (n i j : Text)
      → view (f st (n, i)) j ≡ (if text_eq n j then g n i (view st j) else view st j)

  pub view-fold :
      (f : StateFile F64 → Text × Text → StateFile F64)
      (g : Text → Text → Profile F64 → Profile F64)
      → Own f g
      → (m : Map Text) (st : StateFile F64) (j : Text) → Distinct m
      → view (fold_left f st m) j ≡ at_entry g j (get j m) (view st j)
  unfolding get
  view-fold f g own [] st j d = refl
  view-fold f g own ((n, i) ∷ m) st j d = elim (Bool-cases (text_eq n j)) [
    | inl e ↦
        let same : n ≡ j = (text_eq_iff n j).0 e in
        let absent : get j m ≡ none = rw same at d.0 in
        rw (e, view-fold f g own m (f st (n, i)) j d.1, absent, own st n i j, e)
          (ap (λ k. g k i (view st j)) same)
    | inr e ↦ rw (e, view-fold f g own m (f st (n, i)) j d.1, own st n i j, e) refl
  ]
