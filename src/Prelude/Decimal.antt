-- ===== src/Prelude/Decimal.antt =====
-- Decimal numbers: `n.to_string()` reads back by `parse`.
use Prim.Native.Nat.{ℕ, zero, suc, ◌+◌, ◌*◌, ◌/◌, ◌%◌, ◌<◌}
use native.Mathlib.Omega.{arith}
use mathlib.Core.Path.{◌≡◌, refl, ap, ◌∙◌}
use mathlib.Core.Logic.{inl, inr}
use mathlib.Core.Bool.{Bool, true, false, ◌&&◌}
use mathlib.Core.List.{[], ◌∷◌, ◌++◌}
use mathlib.Core.Option.{some}
use causeway.Prelude.Tests.{ltb, leb, if◌then◌else◌, Bool-cases}
use causeway.Prelude.Text.{Text}
use causeway.Prelude.Parse.{digit, digits_from, parse_uint, contains}

-- The digits of a number, most significant first; the number itself is fuel enough.
show_from : ℕ → ℕ → Text
show_from zero n = []
show_from (suc fuel) n =
    let front = show_from fuel (n / 10) in
    if ltb n 10 then (b'0' + n) ∷ [] else front ++ ((b'0' + n % 10) ∷ [])

unfoldable pub to_string : ℕ → Text
unfolding show_from
to_string n = show_from (suc n) n

abbrev pub is_digit : ℕ → Bool
is_digit c = leb b'0' c && leb c b'9'

abbrev pub all_digits : Text → Bool
all_digits [] = true
all_digits (c ∷ cs) = is_digit c && all_digits cs

abbrev nonempty : Text → Bool
nonempty [] = false
nonempty (c ∷ cs) = true

digit-plus : (n : ℕ) → n < 10 → (digit (b'0' + n) ≡ n) × (is_digit (b'0' + n) ≡ true)
digit-plus n h = (ground arith, ground arith)

all_digits-snoc :
    (s : Text) (c : ℕ) → all_digits s ≡ true → is_digit c ≡ true → all_digits (s ++ (c ∷ [])) ≡ true
all_digits-snoc [] c h k = ground arith
all_digits-snoc (d ∷ s) c h k = ground (arith, all_digits-snoc s c)

digits_from-snoc :
    (limit acc m c : ℕ) (s : Text)
    → digits_from 10 limit acc s ≡ some m
    → ltb (digit c) 10 ≡ true
    → ltb (m * 10 + digit c) limit ≡ true
    → digits_from 10 limit acc (s ++ (c ∷ [])) ≡ some (m * 10 + digit c)
unfolding digits_from
digits_from-snoc limit acc m c [] h k l = let e : acc ≡ m = cc in ground arith
digits_from-snoc limit acc m c (d ∷ s) h k l =
    let here = acc * 10 + digit d in
    elim (Bool-cases (ltb (digit d) 10 && ltb here limit)) [
      | inl e ↦
          let rest : digits_from 10 limit here s ≡ some m = ground arith in
          rw e (digits_from-snoc limit here m c s rest k l)
      | inr e ↦ absurd (ground arith)
    ]

nonempty-snoc : (s : Text) (c : ℕ) → nonempty (s ++ (c ∷ [])) ≡ true
nonempty-snoc [] c = refl
nonempty-snoc (d ∷ s) c = refl

show_from-reads :
    (limit fuel n : ℕ)
    → n < fuel
    → n < limit
    → (digits_from 10 limit 0 (show_from fuel n) ≡ some n)
      × (all_digits (show_from fuel n) ≡ true)
      × (nonempty (show_from fuel n) ≡ true)
unfolding show_from digits_from
show_from-reads limit zero n h l = absurd (omega arith)
show_from-reads limit (suc fuel) n h l = elim (Bool-cases (ltb n 10)) [
  | inl e ↦ let p = digit-plus n (ground arith) in rw (e, p.0, p.1) (ground arith, refl, refl)
  | inr e ↦
      let q = digit-plus (n % 10) (omega arith) in
      let c = b'0' + n % 10 in
      let ih = show_from-reads limit fuel (n / 10) (ground arith) (ground arith) in
      let whole : n / 10 * 10 + digit c ≡ n = omega (arith, q.0) in
      let front = show_from fuel (n / 10) in
      rw e (
        digits_from-snoc limit 0 (n / 10) c front ih.0 (ground (arith, q.0)) (ground (arith, whole))
            ∙ ap some whole,
        all_digits-snoc front c ih.1 q.1,
        nonempty-snoc front c,
      )
]

digits_are :
    (limit n : ℕ) (s : Text)
    → digits_from 10 limit 0 s ≡ some n
    → all_digits s ≡ true
    → nonempty s ≡ true
    → parse_uint 10 limit s ≡ some n
unfolding parse_uint
digits_are limit n [] h d e = absurd cc
digits_are limit n (c ∷ cs) h d e = ground arith

-- A number below the limit is read back from its digits.
pub parse_uint-to_string : (limit n : ℕ) → n < limit → parse_uint 10 limit (to_string n) ≡ some n
unfolding to_string parse_uint
parse_uint-to_string limit n h =
    let r = show_from-reads limit (suc n) n (omega arith) h in
    digits_are limit n (show_from (suc n) n) r.0 r.1 r.2

pub all_digits-to_string : (n : ℕ) → all_digits (to_string n) ≡ true
unfolding to_string
all_digits-to_string n = (show_from-reads (suc n) (suc n) n (omega arith) (omega arith)).1

-- A text of digits has no other byte.
pub contains-all_digits :
    (c : ℕ) (s : Text) → all_digits s ≡ true → is_digit c ≡ false → contains c s ≡ false
unfolding contains
contains-all_digits c [] h k = refl
contains-all_digits c (d ∷ s) h k = ground (arith, contains-all_digits c s)
