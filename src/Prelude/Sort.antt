-- ===== src/Prelude/Sort.antt =====
-- A stable sort by insertion. `sort`, `sort_by` and `sort_by_key` of the standard library are merge
-- sorts; a stable sort by a total preorder has one result, so the method does not show.
use mathlib.Core.Path.{◌≡◌}
use mathlib.Core.Logic.{inl, inr}
use mathlib.Core.Bool.{Bool, true, false}
use mathlib.Core.List.{List, [], ◌∷◌, Perm}
use mathlib.Core.List.Perm
use native.Mathlib.Omega.{arith}
use causeway.Prelude.Tests.{if◌then◌else◌, Bool-cases}

module _ {A : Type 0} (le : A → A → Bool) where
  unfoldable pub insert_by : A → List A → List A
  insert_by a [] = a ∷ []
  insert_by a (b ∷ bs) = if le a b then a ∷ b ∷ bs else b ∷ insert_by a bs

  unfoldable pub sort_by : List A → List A
  unfolding insert_by
  sort_by [] = []
  sort_by (a ∷ as') = insert_by a (sort_by as')

  pub insert_by-perm : (a : A) (l : List A) → Perm (insert_by a l) (a ∷ l)
  unfolding insert_by
  insert_by-perm a [] = Perm.rfl
  insert_by-perm a (b ∷ bs) = elim (Bool-cases (le a b)) [
    | inl e ↦ rw e Perm.rfl
    | inr e ↦ rw e (Perm.trans (Perm.cons b (insert_by-perm a bs)) (Perm.swap a b bs))
  ]

  -- Sorting rearranges.
  pub sort_by-perm : (l : List A) → Perm (sort_by l) l
  unfolding sort_by
  sort_by-perm [] = Perm.rfl
  sort_by-perm (a ∷ as') =
      Perm.trans (insert_by-perm a (sort_by as')) (Perm.cons a (sort_by-perm as'))

  -- A total order that tells elements apart.
  pub record Total : Type 0 where
    pub total : (a b : A) → le a b ≡ false → le b a ≡ true
    pub antisym : (a b : A) → le a b ≡ true → le b a ≡ true → a ≡ b
    pub trans : (a b c : A) → le a b ≡ true → le b c ≡ true → le a c ≡ true

  pub insert_by_comm :
      Total → (a b : A) (l : List A) → insert_by a (insert_by b l) ≡ insert_by b (insert_by a l)
  unfolding insert_by
  insert_by_comm o a b [] = ground (arith, o.total a b, o.antisym a b)
  insert_by_comm o a b (c ∷ cs) = ground (
    arith,
    o.total a b,
    o.total a c,
    o.total b c,
    o.antisym a b,
    o.trans a b c,
    o.trans b a c,
    o.trans a c b,
    o.trans b c a,
    o.trans c a b,
    o.trans c b a,
    insert_by_comm o a b cs,
  )
