-- ===== src/Supervisor/Candidates/Membership.antt =====
-- Which nodes `ranked_candidates` of src/supervisor.rs offers.
use mathlib.Core.List.{Perm, Permᴰ}
use mathlib.Core.Bool.{Bool-set}
use mathlib.Core.Logic.{∥∥₁_elim}
use causeway.Prelude.{◌≡◌, refl, ◌∙◌, Bool, ◌&&◌, List, [], ◌∷◌, any, filterb, arith}
use causeway.Prelude.Text.{Text}
use causeway.Prelude.Map.{get}
use causeway.Score.{Float}
use causeway.State.{Stats}
use causeway.Subscription.{Node, name}
use causeway.Supervisor.Candidates.{Sorting, in_regions, probed_in, ranked_candidates}

module _ {A : Type 0} where
  any-permᴰ : {xs ys : List A} (p : A → Bool) → Permᴰ xs ys → any p xs ≡ any p ys
  any-permᴰ p Permᴰ.nil = refl
  any-permᴰ p (Permᴰ.cons e t) = rw (e, any-permᴰ p t) refl
  any-permᴰ p (Permᴰ.swap e f) = rw (e, f) (ground arith)
  any-permᴰ p (Permᴰ.trans s t) = any-permᴰ p s ∙ any-permᴰ p t

  pub any-perm : {xs ys : List A} (p : A → Bool) → Perm xs ys → any p xs ≡ any p ys
  any-perm p t = ∥∥₁_elim t (Bool-set _ _) (any-permᴰ p)

  pub any-filterb : (p q : A → Bool) (l : List A) → any p (filterb q l) ≡ any (λ x. p x && q x) l
  any-filterb p q [] = refl
  any-filterb p q (x ∷ l) = ground (arith, any-filterb p q l)

module _ (F : Float) (sorting : Sorting Node) where
  -- Whatever is asked of a node: some candidate satisfies it exactly if some node of the pool does
  -- that has been probed and lies in the regions. So the ranking loses no such node and adds none.
  pub any-ranked_candidates :
      (p : Node → Bool) (nodes : List Node) (stats : Stats F.F64) (regions : List Text)
      → any p (ranked_candidates F sorting nodes stats regions)
        ≡ any (λ n. p n && in_regions regions n && probed_in (get (name n) stats)) nodes
  unfolding ranked_candidates
  any-ranked_candidates p nodes stats regions =
      any-perm p (sorting.rearranges _ _)
      ∙ any-filterb p (in_regions regions) _
      ∙ any-filterb _ _ nodes
