-- ===== src/Prelude/Map.antt =====
-- Rust's `BTreeMap<String, V>` as a list of entries in key order, behind its lookup laws.
use mathlib.Core.Path.{◌≡◌, refl}
use mathlib.Core.Bool.{Bool}
use mathlib.Core.List.{List, [], ◌∷◌}
use mathlib.Core.Option.{Option, none, some}
use Prim.Native.Nat.{Ordering}
use native.Mathlib.Omega.{arith}
use causeway.Prelude.Tests.{if◌then◌else◌, is_some}
use causeway.Prelude.Text.{Text, text_cmp, text_eq, text_eq_iff, text_cmp_sound, text_cmp_refl}

abbrev pub Map {ℓ} : Type ℓ → Type ℓ
Map V = List (Text × V)

module _ {ℓ} {V : Type ℓ} where
  -- `map.get(k)`
  unfoldable pub get : Text → Map V → Option V
  get k [] = none
  get k ((j, v) ∷ m) = if text_eq j k then some v else get k m

  -- `map.insert(k, v)`
  unfoldable pub insert : Text → V → Map V → Map V
  insert k v [] = (k, v) ∷ []
  insert k v ((j, w) ∷ m) = elim (text_cmp k j) [
    | Ordering.lt ↦ (k, v) ∷ (j, w) ∷ m
    | Ordering.eq ↦ (k, v) ∷ m
    | Ordering.gt ↦ (j, w) ∷ insert k v m
  ]

  -- `map.remove(k)`
  unfoldable pub remove : Text → Map V → Map V
  remove k [] = []
  remove k ((j, v) ∷ m) = if text_eq j k then remove k m else (j, v) ∷ remove k m

  -- `map.contains_key(k)`
  abbrev pub contains_key : Text → Map V → Bool
  contains_key k m = is_some (get k m)

  -- `map.keys()`
  abbrev pub keys : Map V → List Text
  keys [] = []
  keys ((k, v) ∷ m) = k ∷ keys m

  pub get-nil : (k : Text) → get k [] ≡ none
  unfolding get
  get-nil k = refl

  pub get-insert :
      (k j : Text) (v : V) (m : Map V)
      → get j (insert k v m) ≡ (if text_eq k j then some v else get j m)
  unfolding get insert
  get-insert k j v [] = refl
  get-insert k j v ((i, w) ∷ m) = ground (
    arith,
    text_eq_iff k j,
    text_eq_iff i j,
    text_cmp_sound k i,
    text_cmp_refl k,
    get-insert k j v m,
  )

  pub get-remove :
      (k j : Text) (m : Map V) → get j (remove k m) ≡ (if text_eq k j then none else get j m)
  unfolding get remove
  get-remove k j [] = ground arith
  get-remove k j ((i, w) ∷ m) =
      ground (arith, text_eq_iff k j, text_eq_iff i j, text_eq_iff i k, get-remove k j m)

  remove-absent : (k : Text) (m : Map V) → get k m ≡ none → remove k m ≡ m
  unfolding get remove
  remove-absent k [] h = refl
  remove-absent k ((j, w) ∷ m) h = ground (arith, remove-absent k m)

  pub remove-insert : (k : Text) (v : V) (m : Map V) → get k m ≡ none → remove k (insert k v m) ≡ m
  unfolding get insert remove
  remove-insert k v [] h = ground (arith, text_cmp_refl k)
  remove-insert k v ((j, w) ∷ m) h =
      ground (arith, text_cmp_refl k, text_cmp_sound k j, remove-absent k m, remove-insert k v m)

pub ruleset map_laws = (get-nil, get-insert, get-remove)
