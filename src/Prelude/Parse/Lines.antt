-- ===== src/Prelude/Parse/Lines.antt =====
-- The lines of a text that is written line by line.
use Prim.Native.Nat.{ℕ}
use mathlib.Core.Path.{◌≡◌, refl, ap, ◌∙◌}
use native.Mathlib.Omega.{arith}
use mathlib.Core.Bool.{false}
use mathlib.Core.List.{List, [], ◌∷◌, ◌++◌}
use causeway.Prelude.Tests.{◌==◌}
use causeway.Prelude.Text.{Text}
use causeway.Prelude.Parse.{grow, split_newline, strip_cr, drop_last_empty, lines, contains}

split_newline-append :
    (l t : Text) → contains 10 l ≡ false → split_newline (l ++ (10 ∷ t)) ≡ l ∷ split_newline t
unfolding contains
split_newline-append [] t h = refl
split_newline-append (c ∷ l) t h = ground (arith, split_newline-append l t)

strip_cr-plain : (l : Text) → contains 13 l ≡ false → strip_cr l ≡ l
unfolding contains
strip_cr-plain [] h = refl
strip_cr-plain (c ∷ []) h = ground arith
strip_cr-plain (c ∷ d ∷ l) h = ap (λ t. c ∷ t) (strip_cr-plain (d ∷ l) (ground arith))

drop_last_empty-cons :
    (c : ℕ) (l : Text) (ls : List Text)
    → drop_last_empty ((c ∷ l) ∷ ls) ≡ strip_cr (c ∷ l) ∷ drop_last_empty ls
drop_last_empty-cons c l ls = refl

-- A line that is not empty, with its newline, and the rest.
pub lines-cons :
    (c : ℕ) (l t : Text)
    → contains 10 (c ∷ l) ≡ false
    → contains 13 (c ∷ l) ≡ false
    → lines ((c ∷ l) ++ (10 ∷ t)) ≡ (c ∷ l) ∷ lines t
unfolding lines
lines-cons c l t h k =
    ap drop_last_empty (split_newline-append (c ∷ l) t h)
    ∙ ap (λ x. x ∷ drop_last_empty (split_newline t)) (strip_cr-plain (c ∷ l) k)

pub lines-nil : lines [] ≡ []
unfolding lines
lines-nil = refl

grow-parts :
    (c : ℕ) (ls : List Text) → (l : Text) × (rest : List Text) × (grow c ls ≡ (c ∷ l) ∷ rest)
grow-parts c [] = ([], [], refl)
grow-parts c (l ∷ ls) = (l, ls, refl)

split_newline-parts :
    (c : ℕ) (t : Text)
    → (c == 10) ≡ false
    → (l : Text) × (ls : List Text) × (split_newline (c ∷ t) ≡ (c ∷ l) ∷ ls)
split_newline-parts c t h = rw h (grow-parts c (split_newline t))

-- An empty line before another line.
pub lines-empty : (c : ℕ) (t : Text) → (c == 10) ≡ false → lines (10 ∷ c ∷ t) ≡ [] ∷ lines (c ∷ t)
unfolding lines
lines-empty c t h = let (l, ls, e) = split_newline-parts c t h in rw e refl
