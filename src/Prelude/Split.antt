-- ===== src/Prelude/Split.antt =====
-- Splitting texts: `split(c)`, fixed slices and prefixes, and how they undo concatenation.
use Prim.Native.Nat.{ℕ, zero, suc}
use native.Mathlib.Omega.{arith}
use mathlib.Core.Path.{◌≡◌, refl, sym, ap, ◌∙◌}
use mathlib.Core.Logic.{inl, inr}
use mathlib.Core.Bool.{false}
use mathlib.Core.List.{List, [], ◌∷◌, ◌++◌}
use mathlib.Core.Option.{some}
use causeway.Prelude.Tests.{◌==◌, if◌then◌else◌, Bool-cases}
use causeway.Prelude.Lists.{length, take, drop}
use causeway.Prelude.Text.{Text}
use causeway.Prelude.Parse.{strip_prefix, contains, grow}

-- `text.split(c)`: one part more than there are separators.
unfoldable pub split : ℕ → Text → List Text
split sep [] = [] ∷ []
split sep (c ∷ cs) = let rest = split sep cs in if c == sep then [] ∷ rest else grow c rest

pub split-last : (sep : ℕ) (s : Text) → contains sep s ≡ false → split sep s ≡ s ∷ []
unfolding split contains
split-last sep [] h = refl
split-last sep (c ∷ s) h = ground (arith, split-last sep s)

pub split-append :
    (sep : ℕ) (s t : Text) → contains sep s ≡ false → split sep (s ++ (sep ∷ t)) ≡ s ∷ split sep t
unfolding split contains
split-append sep [] t h = ground arith
split-append sep (c ∷ s) t h = ground (arith, split-append sep s t)

-- The parts joined again.
abbrev pub join : ℕ → List Text → Text
join sep [] = []
join sep (t ∷ []) = t
join sep (t ∷ u ∷ ts) = t ++ (sep ∷ join sep (u ∷ ts))

join-grow :
    (sep c : ℕ) (t : Text) (ts : List Text) → join sep (grow c (t ∷ ts)) ≡ c ∷ join sep (t ∷ ts)
join-grow sep c t [] = refl
join-grow sep c t (u ∷ ts) = refl

split-parts : (sep : ℕ) (s : Text) → (t : Text) × (ts : List Text) × (split sep s ≡ t ∷ ts)
unfolding split
split-parts sep [] = ([], [], refl)
split-parts sep (c ∷ s) =
    let (t, ts, e) = split-parts sep s in
    elim (Bool-cases (c == sep)) [
      | inl f ↦ rw f ([], split sep s, refl)
      | inr f ↦ rw (f, e) (c ∷ t, ts, refl)
    ]

pub join-split : (sep : ℕ) (s : Text) → join sep (split sep s) ≡ s
unfolding split
join-split sep [] = refl
join-split sep (c ∷ s) =
    let (t, ts, e) = split-parts sep s in
    let ih : join sep (t ∷ ts) ≡ s = ap (join sep) (sym e) ∙ join-split sep s in
    elim (Bool-cases (c == sep)) [
      | inl f ↦ let same : c ≡ sep = ground arith in rw (f, e) (ground arith)
      | inr f ↦ rw (f, e) (join-grow sep c t ts ∙ ap (λ u. c ∷ u) ih)
    ]

pub strip_prefix-append : (p t : Text) → strip_prefix p (p ++ t) ≡ some t
unfolding strip_prefix
strip_prefix-append [] t = refl
strip_prefix-append (c ∷ p) t = ground (arith, strip_prefix-append p t)

pub strip_prefix-parts : (p s t : Text) → strip_prefix p s ≡ some t → s ≡ p ++ t
unfolding strip_prefix
strip_prefix-parts [] s t h = cc
strip_prefix-parts (c ∷ p) [] t h = absurd cc
strip_prefix-parts (c ∷ p) (d ∷ s) t h = ground (arith, strip_prefix-parts p s t)

pub take-drop : (n : ℕ) (s : Text) → take n s ++ drop n s ≡ s
take-drop zero s = refl
take-drop (suc n) [] = refl
take-drop (suc n) (c ∷ s) = ap (λ t. c ∷ t) (take-drop n s)

pub take-append : (s t : Text) → take (length s) (s ++ t) ≡ s
take-append [] t = refl
take-append (c ∷ s) t = ap (λ u. c ∷ u) (take-append s t)

pub drop-length : (s t : Text) → drop (length s) (s ++ t) ≡ t
drop-length [] t = refl
drop-length (c ∷ s) t = drop-length s t
