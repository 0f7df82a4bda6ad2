-- ===== src/Prelude/Text.antt =====
-- Rust's `String` and `&str` as lists of bytes: UTF-8 order is the order of the bytes.
use Prim.Native.Char.{code}
use Prim.Native.String.{String}
use Prim.Native.Nat.{ℕ, compare, Ordering}
use mathlib.Core.Path.{◌≡◌, refl, ap}
use mathlib.Core.Logic.{◌↔◌}
use mathlib.Core.Bool.{Bool, true, false}
use mathlib.Core.List.{List, [], ◌∷◌}
use mathlib.Core.Option.{Option, none, some}
use native.Mathlib.Omega.{arith}

abbrev pub Text : Type 0
Text = List ℕ

-- The bytes of an ASCII literal. `String` has its own `[]` and `∷`.
abbrev pub codes : String → Text
codes String.[] = []
codes (String.◌∷◌ c s) = code c ∷ codes s

unfoldable pub text_cmp : Text → Text → Ordering
text_cmp [] [] = Ordering.eq
text_cmp [] (y ∷ ys) = Ordering.lt
text_cmp (x ∷ xs) [] = Ordering.gt
text_cmp (x ∷ xs) (y ∷ ys) = elim (compare x y) [
  | Ordering.lt ↦ Ordering.lt
  | Ordering.eq ↦ text_cmp xs ys
  | Ordering.gt ↦ Ordering.gt
]

-- `a == b` on texts.
abbrev pub text_eq : Text → Text → Bool
text_eq a b = elim (text_cmp a b) [ Ordering.eq ↦ true | _ ↦ false ]

pub text_cmp_refl : (a : Text) → text_cmp a a ≡ Ordering.eq
unfolding text_cmp
text_cmp_refl [] = refl
text_cmp_refl (x ∷ xs) = ground (arith, text_cmp_refl xs)

pub text_cmp_sound : (a b : Text) → text_cmp a b ≡ Ordering.eq → a ≡ b
unfolding text_cmp
text_cmp_sound [] [] h = refl
text_cmp_sound [] (y ∷ ys) h = cc
text_cmp_sound (x ∷ xs) [] h = cc
text_cmp_sound (x ∷ xs) (y ∷ ys) h = ground (arith, text_cmp_sound xs ys)

pub text_eq_iff : (a b : Text) → (text_eq a b ≡ true) ↔ (a ≡ b)
text_eq_iff a b = (λ h. text_cmp_sound a b (ground arith), λ e. ground (arith, text_cmp_refl b))

pub text_eq_refl : (a : Text) → text_eq a a ≡ true
text_eq_refl a = (text_eq_iff a a).1 refl

-- `option.as_deref() == Some(t)`
abbrev pub is_text : Option Text → Text → Bool
is_text none t = false
is_text (some s) t = text_eq s t

pub is_text_iff : (o : Option Text) (t : Text) → (is_text o t ≡ true) ↔ (o ≡ some t)
is_text_iff none t = (λ h. cc, λ e. cc)
is_text_iff (some s) t = (λ h. ap some ((text_eq_iff s t).0 h), λ e. (text_eq_iff s t).1 (cc))

pub text_cmp_gt : (a b : Text) → text_cmp a b ≡ Ordering.gt → text_cmp b a ≡ Ordering.lt
unfolding text_cmp
text_cmp_gt [] [] h = cc
text_cmp_gt [] (y ∷ ys) h = cc
text_cmp_gt (x ∷ xs) [] h = refl
text_cmp_gt (x ∷ xs) (y ∷ ys) h = ground (arith, text_cmp_gt xs ys)

pub text_cmp_lt : (a b : Text) → text_cmp a b ≡ Ordering.lt → text_cmp b a ≡ Ordering.gt
unfolding text_cmp
text_cmp_lt [] [] h = cc
text_cmp_lt [] (y ∷ ys) h = refl
text_cmp_lt (x ∷ xs) [] h = cc
text_cmp_lt (x ∷ xs) (y ∷ ys) h = ground (arith, text_cmp_lt xs ys)

pub text_lt_trans :
    (a b c : Text)
    → text_cmp a b ≡ Ordering.lt
    → text_cmp b c ≡ Ordering.lt
    → text_cmp a c ≡ Ordering.lt
unfolding text_cmp
text_lt_trans [] [] c h k = cc
text_lt_trans [] (y ∷ ys) [] h k = cc
text_lt_trans [] (y ∷ ys) (z ∷ zs) h k = refl
text_lt_trans (x ∷ xs) [] c h k = cc
text_lt_trans (x ∷ xs) (y ∷ ys) [] h k = cc
text_lt_trans (x ∷ xs) (y ∷ ys) (z ∷ zs) h k = ground (arith, text_lt_trans xs ys zs)
