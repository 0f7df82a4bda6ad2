-- ===== src/Supervisor/Candidates/Profile.antt =====
-- The order of the candidates of a profile (src/supervisor.rs, `profile_candidates`).
use causeway.Prelude.{
  ◌≡◌, refl, sym, subst, inl, inr, Bool, true, false, not, ◌&&◌, ◌||◌, Option, none, some, List, [],
  ◌∷◌, ◌++◌, any, filterb, find, Bool-cases, arith,
}
use causeway.Prelude.Text.{Text, text_eq, text_eq_iff, text_cmp}
use causeway.Score.{Float}
use causeway.State.{Stats}
use causeway.Subscription.{Node, name}
use causeway.Supervisor.Candidates.{
  Sorting, in_regions, push_new, push_all, first_preferred, sort_probed, stats_of,
  profile_candidates,
}
use causeway.Supervisor.Candidates.Membership.{any-perm, any-filterb}

-- That some node of the list has this name.
abbrev pub offers : Text → List Node → Bool
offers x l = any (λ n. text_eq (name n) x) l

any-append : {A : Type 0} (p : A → Bool) (xs ys : List A) → any p (xs ++ ys) ≡ any p xs || any p ys
any-append p [] ys = refl
any-append p (x ∷ xs) ys = ground (arith, any-append p xs ys)

offers-push_new :
    (x : Text) (ordered : List Node) (n : Node)
    → offers x (push_new ordered n) ≡ offers x ordered || text_eq (name n) x
unfolding push_new
offers-push_new x ordered n =
    ground (arith, any-append (λ m. text_eq (name m) x) ordered (n ∷ []), text_eq_iff (name n) x)

offers-push_all :
    (x : Text) (ordered ns : List Node)
    → offers x (push_all ordered ns) ≡ offers x ordered || offers x ns
unfolding push_all
offers-push_all x ordered [] = ground arith
offers-push_all x ordered (n ∷ ns) =
    ground (arith, offers-push_new x ordered n, offers-push_all x (push_new ordered n) ns)

any_split :
    (p q : Node → Bool) (l : List Node)
    → any (λ n. p n && q n) l || any (λ n. p n && not (q n)) l ≡ any p l
any_split p q [] = refl
any_split p q (n ∷ l) = ground (arith, any_split p q l)

-- No two nodes of the list share a name.
abbrev pub AllNamed : List Node → Type 0
AllNamed [] = Unit {0}
AllNamed (n ∷ l) = (offers (name n) l ≡ false) × AllNamed l

AllNamed-snoc :
    (l : List Node) (n : Node) → AllNamed l → offers (name n) l ≡ false → AllNamed (l ++ n ∷ [])
AllNamed-snoc [] n h e = (refl, tt)
AllNamed-snoc (m ∷ l) n h e = (
  ground (
    arith,
    any-append (λ k. text_eq (name k) (name m)) l (n ∷ []),
    text_eq_iff (name n) (name m),
    text_eq_iff (name m) (name n),
    h.0,
  ),
  AllNamed-snoc l n h.1 (ground arith),
)

AllNamed-push_new : (l : List Node) (n : Node) → AllNamed l → AllNamed (push_new l n)
unfolding push_new
AllNamed-push_new l n h = elim (Bool-cases (offers (name n) l)) [
  | inl e ↦ rw e h
  | inr e ↦ rw e (AllNamed-snoc l n h e)
]

AllNamed-push_all : (ns l : List Node) → AllNamed l → AllNamed (push_all l ns)
unfolding push_all
AllNamed-push_all [] l h = h
AllNamed-push_all (n ∷ ns) l h = AllNamed-push_all ns (push_new l n) (AllNamed-push_new l n h)

-- The name of the first node.
abbrev pub first_name : List Node → Option Text
first_name [] = none
first_name (n ∷ l) = some (name n)

first_name-push_new :
    (l : List Node) (n : Node) (x : Text)
    → first_name l ≡ some x
    → first_name (push_new l n) ≡ some x
unfolding push_new
first_name-push_new [] n x e = cc
first_name-push_new (m ∷ l) n x e = ground arith

first_name-push_all :
    (ns l : List Node) (x : Text) → first_name l ≡ some x → first_name (push_all l ns) ≡ some x
unfolding push_all
first_name-push_all [] l x e = e
first_name-push_all (n ∷ ns) l x e =
    first_name-push_all ns (push_new l n) x (first_name-push_new l n x e)

first_preferred-named :
    (x : Text) (pool : List Node)
    → offers x pool ≡ true
    → first_name (first_preferred (some x) pool) ≡ some x
unfolding first_preferred
first_preferred-named x [] h = cc
first_preferred-named x (n ∷ pool) h =
    ground (arith, text_eq_iff (name n) x, first_preferred-named x pool)

offers-first_preferred :
    (x : Text) (preferred : Option Text) (pool : List Node)
    → offers x (first_preferred preferred pool) || offers x pool ≡ offers x pool
unfolding first_preferred
offers-first_preferred x none pool = refl
offers-first_preferred x (some p) [] = refl
offers-first_preferred x (some p) (n ∷ pool) =
    ground (arith, offers-first_preferred x (some p) pool)

AllNamed-first :
    (found : Option Node)
    → AllNamed (elim found as (λ x. List Node) [ none ↦ [] | some node ↦ node ∷ [] ])
AllNamed-first none = tt
AllNamed-first (some n) = (refl, tt)

AllNamed-first_preferred :
    (preferred : Option Text) (pool : List Node) → AllNamed (first_preferred preferred pool)
unfolding first_preferred
AllNamed-first_preferred none pool = tt
AllNamed-first_preferred (some p) pool = AllNamed-first (find (λ n. text_eq (name n) p) pool)

module _ (F : Float) (sorting : Sorting Node) where
  offers-sort_probed :
      (x : Text) (stats : Option (Stats F.F64)) (l : List Node)
      → offers x (sort_probed F sorting stats l) ≡ offers x l
  unfolding sort_probed
  offers-sort_probed x none l = refl
  offers-sort_probed x (some s) l = any-perm (λ n. text_eq (name n) x) (sorting.rearranges _ l)

  -- The candidates of a profile are the nodes of its pool that lie in the regions, each name once:
  -- none is lost and none is added; and the preferred node, if the pool has it there, comes first.
  pub profile_candidates_names :
      (nodes : List Node) (stats : Option (Stats F.F64)) (preferred : Option Text)
      (regions : List Text)
      → let l = profile_candidates F sorting nodes stats preferred regions in
        let pool = filterb (in_regions regions) nodes in
        ((x : Text) → offers x l ≡ offers x pool)
        × AllNamed l
        × ((x : Text) → preferred ≡ some x → offers x pool ≡ true → first_name l ≡ some x)
  unfolding profile_candidates
  profile_candidates_names nodes stats preferred regions =
      let pool = filterb (in_regions regions) nodes in
      let s = stats_of F sorting stats in
      let probed = sort_probed F sorting stats (filterb s pool) in
      let unprobed =
        sorting.sort_by (λ a b. text_cmp (name a) (name b)) (filterb (λ n. not (s n)) pool) in
      let first = first_preferred preferred pool in
      (
        (λ x. ground (
          arith,
          offers-push_all x first probed,
          offers-push_all x (push_all first probed) unprobed,
          offers-sort_probed x stats (filterb s pool),
          any-perm (λ n. text_eq (name n) x)
              (sorting.rearranges (λ a b. text_cmp (name a) (name b))
                (filterb (λ n. not (s n)) pool)),
          any-filterb (λ n. text_eq (name n) x) s pool,
          any-filterb (λ n. text_eq (name n) x) (λ n. not (s n)) pool,
          any_split (λ n. text_eq (name n) x) s pool,
          offers-first_preferred x preferred pool,
        )),
        AllNamed-push_all unprobed (push_all first probed)
            (AllNamed-push_all probed first (AllNamed-first_preferred preferred pool)),
        (λ x e h. first_name-push_all unprobed (push_all first probed) x (
            first_name-push_all probed first x (
              subst (λ o. first_name (first_preferred o pool) ≡ some x) (sym e)
                (first_preferred-named x pool h)))),
      )
