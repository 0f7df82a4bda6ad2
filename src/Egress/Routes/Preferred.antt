-- ===== src/Egress/Routes/Preferred.antt =====
-- The signature of src/egress.rs does not depend on the order of the kernel's list, nor on backups.
use mathlib.Core.List.{Perm, Permᴰ, perm_middle}
use mathlib.Core.Logic.{∥∥₁_elim}
use causeway.Prelude.{
  ℕ, ◌<◌, ◌≡◌, refl, ap, sym, ◌∙◌, Bool, Option, none, some, List, [], ◌∷◌, ◌++◌, ◌==◌, filterb,
  if◌then◌else◌, arith,
}
use causeway.Prelude.Text.{text_cmp_sound, text_cmp_gt, text_cmp_lt, text_lt_trans}
use causeway.Prelude.Sort.{Total, insert_by, insert_by_comm}
use causeway.Egress.Routes.{
  DefaultRoute, route_cmp, route_le, min_metric, sort, dedup, preferred, keep_metric,
}

route_le-Total : Total route_le
unfolding route_cmp
route_le-Total = record {
  total = λ a b h. ground (
    arith,
    text_cmp_gt a.interface b.interface,
    text_cmp_gt a.gateway b.gateway,
    text_cmp_sound a.interface b.interface,
    text_cmp_sound a.gateway b.gateway,
  );
  antisym = λ a b h k. ground (
    arith,
    text_cmp_lt a.interface b.interface,
    text_cmp_lt a.gateway b.gateway,
    text_cmp_sound a.interface b.interface,
    text_cmp_sound a.gateway b.gateway,
  );
  trans = λ a b c h k. ground (
    arith,
    text_lt_trans a.interface b.interface c.interface,
    text_lt_trans a.gateway b.gateway c.gateway,
    text_cmp_sound a.interface b.interface,
    text_cmp_sound b.interface c.interface,
    text_cmp_sound a.gateway b.gateway,
    text_cmp_sound b.gateway c.gateway,
  );
}

DefaultRoute-set : IsSet (List DefaultRoute)
DefaultRoute-set = hlevel

min_metric_perm : {xs ys : List DefaultRoute} → Permᴰ xs ys → min_metric xs ≡ min_metric ys
unfolding min_metric
min_metric_perm Permᴰ.nil = refl
min_metric_perm (Permᴰ.cons e p) = ground (arith, min_metric_perm p, e)
min_metric_perm (Permᴰ.swap e f) = ground (arith, e, f)
min_metric_perm (Permᴰ.trans p q) = min_metric_perm p ∙ min_metric_perm q

abbrev put : (DefaultRoute → Bool) → DefaultRoute → List DefaultRoute → List DefaultRoute
put p a l = if p a then insert_by route_le a l else l

sort_filter_cons :
    (p : DefaultRoute → Bool) (a : DefaultRoute) (l : List DefaultRoute)
    → sort (filterb p (a ∷ l)) ≡ put p a (sort (filterb p l))
unfolding sort
sort_filter_cons p a l = ground arith

put_comm :
    (p : DefaultRoute → Bool) (a b : DefaultRoute) (l : List DefaultRoute)
    → put p a (put p b l) ≡ put p b (put p a l)
put_comm p a b l = ground (arith, insert_by_comm route_le route_le-Total a b l)

sort_filter_perm :
    {xs ys : List DefaultRoute} (p : DefaultRoute → Bool)
    → Permᴰ xs ys
    → sort (filterb p xs) ≡ sort (filterb p ys)
sort_filter_perm p Permᴰ.nil = refl
sort_filter_perm p (Permᴰ.cons {a = a} {b = b} {l₁ = k} {l₂ = l} e t) =
    rw (e, sort_filter_cons p b k, sort_filter_cons p b l, sort_filter_perm p t) refl
sort_filter_perm p (Permᴰ.swap {a = a} {b = b} {a' = c} {b' = d} {l = l} e f) =
    rw
      (
        e,
        f,
        sort_filter_cons p d (c ∷ l),
        sort_filter_cons p c (d ∷ l),
        sort_filter_cons p c l,
        sort_filter_cons p d l,
      )
      (put_comm p d c (sort (filterb p l)))
sort_filter_perm p (Permᴰ.trans s t) = sort_filter_perm p s ∙ sort_filter_perm p t

min_metric-none : (l : List DefaultRoute) → min_metric l ≡ none → l ≡ []
unfolding min_metric
min_metric-none [] e = refl
min_metric-none (r ∷ rs) e = absurd (ground arith)

preferred_permᴰ : {xs ys : List DefaultRoute} → Permᴰ xs ys → preferred xs ≡ preferred ys
unfolding preferred
preferred_permᴰ {xs} {ys} t = rw (min_metric_perm t) (kept (min_metric ys) refl)
  where
    kept : (m : Option ℕ) → min_metric ys ≡ m → keep_metric m xs ≡ keep_metric m ys
    kept none e = min_metric-none xs (min_metric_perm t ∙ e) ∙ sym (min_metric-none ys e)
    kept (some m) e = ap dedup (sort_filter_perm (λ r. r.metric == m) t)

-- The preferred routes do not depend on the order in which the kernel lists them.
pub preferred-perm : (xs ys : List DefaultRoute) → Perm xs ys → preferred xs ≡ preferred ys
preferred-perm xs ys t = ∥∥₁_elim t (DefaultRoute-set _ _) preferred_permᴰ

-- A route whose metric is above the lowest one, wherever it stands in the list, does not change
-- the preferred routes.
pub preferred_backup :
    (xs ys : List DefaultRoute) (r : DefaultRoute) (metric : ℕ)
    → min_metric (xs ++ ys) ≡ some metric
    → metric < r.metric
    → preferred (xs ++ r ∷ ys) ≡ preferred (xs ++ ys)
unfolding preferred min_metric
preferred_backup xs ys r metric lowest worse = preferred-perm _ _ (perm_middle xs ys) ∙ ground arith
