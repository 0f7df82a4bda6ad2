-- ===== src/Subscription/Parsed.antt =====
-- What the loop of src/subscription.rs over the entries of a manifest produces.
use causeway.Prelude.{
  ℕ, ◌+◌, ◌≡◌, refl, Option, none, some, List, [], ◌∷◌, ◌++◌, find, any, is_some, arith,
}
use causeway.Prelude.Text.{Text, text_eq, text_eq_iff}
use causeway.Subscription.{
  Node, name, RawProxy, Entry, parsed, bad_entry, unsupported_type, entry, Parse, take_entry,
  parse_from, parse_proxies, start,
}

abbrev pub node_named : Text → List Node → Option Node
node_named x l = find (λ n. text_eq (name n) x) l

-- No two nodes of the list share a name.
abbrev pub DistinctNames : List Node → Type 0
DistinctNames [] = Unit {0}
DistinctNames (n ∷ l) = (node_named (name n) l ≡ none) × DistinctNames l

abbrev or_else : Option Node → Option Node → Option Node
or_else none o = o
or_else (some n) o = some n

-- The nodes that the entries stand for, one by one.
pub converted : List (Option RawProxy) → List Node
converted [] = []
converted (v ∷ vs) = elim (entry v) [
  | parsed n ↦ n ∷ converted vs
  | bad_entry ↦ converted vs
  | unsupported_type ↦ converted vs
]

node_named-snoc :
    (x : Text) (l : List Node) (n : Node)
    → node_named x (l ++ n ∷ []) ≡ or_else (node_named x l) (node_named x (n ∷ []))
node_named-snoc x [] n = ground arith
node_named-snoc x (m ∷ l) n = ground (arith, node_named-snoc x l n)

DistinctNames-snoc :
    (l : List Node) (n : Node)
    → DistinctNames l
    → node_named (name n) l ≡ none
    → DistinctNames (l ++ n ∷ [])
DistinctNames-snoc [] n d h = (refl, tt)
DistinctNames-snoc (m ∷ l) n d h = ground (
  arith,
  DistinctNames-snoc l n d.1,
  node_named-snoc (name m) l n,
  text_eq_iff (name n) (name m),
  text_eq_iff (name m) (name n),
)

record Inv (p : Parse) : Type 0 where
  seen_named : (x : Text) → any (λ n. text_eq n x) p.seen ≡ is_some (node_named x p.nodes)
  distinct : DistinctNames p.nodes

take_entry-Inv : (p : Parse) (e : Entry) → Inv p → Inv (take_entry p e)
unfolding take_entry
take_entry-Inv p bad_entry h = record { seen_named = h.seen_named; distinct = h.distinct }
take_entry-Inv p unsupported_type h = record { seen_named = h.seen_named; distinct = h.distinct }
take_entry-Inv p (parsed n) h = record {
  seen_named =
      λ x. ground (arith, h.seen_named x, h.seen_named (name n), node_named-snoc x p.nodes n);
  distinct = ground (arith, h.seen_named (name n), h.distinct, DistinctNames-snoc p.nodes n);
}

parse_from-Inv : (vs : List (Option RawProxy)) (p : Parse) → Inv p → Inv (parse_from p vs)
unfolding parse_from
parse_from-Inv [] p h = h
parse_from-Inv (v ∷ vs) p h =
    parse_from-Inv vs (take_entry p (entry v)) (take_entry-Inv p (entry v) h)

abbrev node_of : Entry → List Node
node_of (parsed n) = n ∷ []
node_of bad_entry = []
node_of unsupported_type = []

take_entry-named :
    (p : Parse) (e : Entry) (x : Text)
    → Inv p
    → node_named x (take_entry p e).nodes
      ≡ or_else (node_named x p.nodes) (node_named x (node_of e))
unfolding take_entry
take_entry-named p bad_entry x h = ground arith
take_entry-named p unsupported_type x h = ground arith
take_entry-named p (parsed n) x h =
    ground (arith, h.seen_named (name n), node_named-snoc x p.nodes n, text_eq_iff (name n) x)

converted-cons :
    (x : Text) (v : Option RawProxy) (vs : List (Option RawProxy))
    → node_named x (converted (v ∷ vs))
      ≡ or_else (node_named x (node_of (entry v))) (node_named x (converted vs))
unfolding converted
converted-cons x v vs = ground arith

parse_from-named :
    (vs : List (Option RawProxy)) (p : Parse) (x : Text)
    → Inv p
    → node_named x (parse_from p vs).nodes
      ≡ or_else (node_named x p.nodes) (node_named x (converted vs))
unfolding parse_from converted
parse_from-named [] p x h = ground arith
parse_from-named (v ∷ vs) p x h = ground (
  arith,
  parse_from-named vs (take_entry p (entry v)) x (take_entry-Inv p (entry v) h),
  take_entry-named p (entry v) x h,
  converted-cons x v vs,
)

abbrev pub is_type : Entry → ℕ
is_type unsupported_type = 1
is_type _ = 0

abbrev pub is_bad : Entry → ℕ
is_bad bad_entry = 1
is_bad _ = 0

-- How many entries the test counts.
pub tally : (Entry → ℕ) → List (Option RawProxy) → ℕ
tally weight [] = 0
tally weight (v ∷ vs) = weight (entry v) + tally weight vs

take_entry-counts :
    (p : Parse) (e : Entry)
    → ((take_entry p e).skipped_type ≡ p.skipped_type + is_type e)
      × ((take_entry p e).skipped_bad ≡ p.skipped_bad + is_bad e)
unfolding take_entry
take_entry-counts p e = ground arith

parse_from-counts :
    (vs : List (Option RawProxy)) (p : Parse)
    → ((parse_from p vs).skipped_type ≡ p.skipped_type + tally is_type vs)
      × ((parse_from p vs).skipped_bad ≡ p.skipped_bad + tally is_bad vs)
unfolding parse_from tally
parse_from-counts [] p = omega arith
parse_from-counts (v ∷ vs) p =
    omega (arith, parse_from-counts vs (take_entry p (entry v)), take_entry-counts p (entry v))

-- Parsing a manifest never gives two nodes of one name; of the entries that convert, the first one
-- of each name is kept, and every name that some entry converts to is there; and the two counters
-- are the numbers of malformed entries and of entries of an unsupported type.
pub parse_proxies_first_wins :
    (vs : List (Option RawProxy)) (x : Text)
    → let p = parse_proxies vs in
      DistinctNames p.nodes
      × (node_named x p.nodes ≡ node_named x (converted vs))
      × (p.skipped_type ≡ tally is_type vs)
      × (p.skipped_bad ≡ tally is_bad vs)
unfolding parse_proxies
parse_proxies_first_wins vs x =
    let h : Inv start = record { seen_named = λ y. refl; distinct = tt } in
    let c = parse_from-counts vs start in
    (
      (parse_from-Inv vs start h).distinct,
      parse_from-named vs start x h,
      omega (arith, c),
      omega (arith, c),
    )
