-- ===== src/Egress/Routes.antt =====
-- The default routes of /proc and the signature made of them (src/egress.rs).
pub mod Preferred
use causeway.Prelude.{
  ℕ, zero, suc, ◌+◌, ◌%◌, ◌^◌, ◌≡◌, arith, Bool, true, false, not, ◌&&◌, ◌||◌, Option, none, some,
  List, [], ◌∷◌, Ordering, compare, min, ltb, leb, ◌==◌, if◌then◌else◌, length, drop, filterb,
}
use causeway.Prelude.Text.{Text, codes, text_cmp, text_eq, text_cmp_sound, text_cmp_refl}
use causeway.Prelude.Sort.{sort_by}
use causeway.Prelude.Parse.{lines, split_whitespace, parse_uint, to_ascii_lowercase}

pub record DefaultRoute : Type 0 where
  pub interface : Text
  pub gateway : Text
  pub metric : ℕ

pub record EgressSignature : Type 0 where
  pub ipv4 : List DefaultRoute
  pub ipv6 : List DefaultRoute

abbrev is_empty : {A : Type 0} → List A → Bool
is_empty [] = true
is_empty (x ∷ xs) = false

unfoldable pub has_default_route : EgressSignature → Bool
has_default_route s = not (is_empty s.ipv4) || not (is_empty s.ipv6)

-- The derived order: field by field.
unfoldable pub route_cmp : DefaultRoute → DefaultRoute → Ordering
route_cmp a b = elim (text_cmp a.interface b.interface) [
  | Ordering.lt ↦ Ordering.lt
  | Ordering.gt ↦ Ordering.gt
  | Ordering.eq ↦ elim (text_cmp a.gateway b.gateway) [
    | Ordering.lt ↦ Ordering.lt
    | Ordering.gt ↦ Ordering.gt
    | Ordering.eq ↦ compare a.metric b.metric
  ]
]

abbrev pub route_le : DefaultRoute → DefaultRoute → Bool
route_le a b = elim (route_cmp a b) [ Ordering.gt ↦ false | _ ↦ true ]

abbrev pub route_eq : DefaultRoute → DefaultRoute → Bool
route_eq a b = elim (route_cmp a b) [ Ordering.eq ↦ true | _ ↦ false ]

pub route_cmp_sound : (a b : DefaultRoute) → route_cmp a b ≡ Ordering.eq → a ≡ b
unfolding route_cmp
route_cmp_sound a b h =
    ground (arith, text_cmp_sound a.interface b.interface, text_cmp_sound a.gateway b.gateway)

pub route_cmp_refl : (a : DefaultRoute) → route_cmp a a ≡ Ordering.eq
unfolding route_cmp
route_cmp_refl a = ground (arith, text_cmp_refl a.interface, text_cmp_refl a.gateway)

-- `iter().map(|r| r.metric).min()`
unfoldable pub min_metric : List DefaultRoute → Option ℕ
min_metric [] = none
min_metric (r ∷ rs) = elim (min_metric rs) [ none ↦ some r.metric | some m ↦ some (min r.metric m) ]

-- `sort()` by the derived order.
pub sort : List DefaultRoute → List DefaultRoute
unfolding sort_by
sort = sort_by route_le

-- `dedup()`: a route equal to the one before it is dropped.
dedup_after : DefaultRoute → List DefaultRoute → List DefaultRoute
dedup_after r [] = []
dedup_after r (s ∷ ss) = let rest = dedup_after s ss in if route_eq r s then rest else s ∷ rest

pub dedup : List DefaultRoute → List DefaultRoute
unfolding dedup_after
dedup [] = []
dedup (r ∷ rs) = r ∷ dedup_after r rs

keep_metric : Option ℕ → List DefaultRoute → List DefaultRoute
keep_metric none routes = routes
keep_metric (some metric) routes = dedup (sort (filterb (λ r. r.metric == metric) routes))

pub preferred : List DefaultRoute → List DefaultRoute
unfolding keep_metric sort dedup min_metric
preferred routes = keep_metric (min_metric routes) routes

abbrev nth : List Text → ℕ → Text
nth [] n = []
nth (f ∷ fs) zero = f
nth (f ∷ fs) (suc n) = nth fs n

-- One line of /proc/net/route, after its header.
pub parse_ipv4_line : Text → Option DefaultRoute
parse_ipv4_line line =
    let fields = split_whitespace line in
    if ltb (length fields) 8
      || not (text_eq (nth fields 1) (codes "00000000"))
      || not (text_eq (nth fields 7) (codes "00000000"))
    then none
    else elim (parse_uint 16 (2 ^ 32) (nth fields 3)) [
      | none ↦ none
      | some flags ↦ if flags % 2 == 0 then none else elim (parse_uint 10 (2 ^ 32) (nth fields 6)) [
        | none ↦ none
        | some metric ↦ some (record {
          interface = nth fields 0;
          gateway = to_ascii_lowercase (nth fields 2);
          metric = metric;
        })
      ]
    ]

abbrev zeros : Text
zeros = codes "00000000000000000000000000000000"

-- One line of /proc/net/ipv6_route.
pub parse_ipv6_line : Text → Option DefaultRoute
parse_ipv6_line line =
    let fields = split_whitespace line in
    if ltb (length fields) 10
      || not (text_eq (nth fields 0) zeros)
      || not (text_eq (nth fields 1) (codes "00"))
      || not (text_eq (nth fields 2) zeros)
      || not (text_eq (nth fields 3) (codes "00"))
    then none
    else elim (parse_uint 16 (2 ^ 32) (nth fields 8)) [
      | none ↦ none
      | some flags ↦ if flags % 2 == 0 then none else elim (parse_uint 16 (2 ^ 32) (nth fields 5)) [
        | none ↦ none
        | some metric ↦ some (record {
          interface = nth fields 9;
          gateway = to_ascii_lowercase (nth fields 4);
          metric = metric;
        })
      ]
    ]

abbrev pub filter_map : {A B : Type 0} → (A → Option B) → List A → List B
filter_map f [] = []
filter_map f (x ∷ xs) = elim (f x) [ none ↦ filter_map f xs | some y ↦ y ∷ filter_map f xs ]

pub parse_ipv4_defaults : Text → List DefaultRoute
parse_ipv4_defaults text = filter_map parse_ipv4_line (drop 1 (lines text))

pub parse_ipv6_defaults : Text → List DefaultRoute
parse_ipv6_defaults text = filter_map parse_ipv6_line (lines text)

pub parse_signature : Text → Text → EgressSignature
parse_signature ipv4 ipv6 = record {
  ipv4 = preferred (parse_ipv4_defaults ipv4);
  ipv6 = preferred (parse_ipv6_defaults ipv6);
}
