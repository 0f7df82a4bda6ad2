-- ===== src/Config/Hosts/Canonical.antt =====
-- What is read of the direct hosts is canonical (src/config.rs).
use causeway.Prelude.{
  ℕ, ◌+◌, ◌≡◌, refl, sym, ap, ◌∙◌, inl, inr, Bool, true, false, not, ◌&&◌, List, [], ◌∷◌, length,
  all, ltb, leb, ◌==◌, if◌then◌else◌, Bool-cases, map, arith,
}
use causeway.Prelude.Text.{Text, text_eq_refl}
use causeway.Prelude.Parse.{contains, to_ascii_lowercase, grow}
use causeway.Prelude.Split.{split}
use causeway.Prelude.Result.{Result, ok, err, ◌>>=◌, ◌>>◌, guard, bind-ok, guard-ok}
use causeway.Config.Hosts.{
  HostError, duplicate, is_digit, is_alphanumeric, last_byte, is_label_byte, check_label,
  check_labels, is_empty, host_checks, canonical_direct_host, listed, read_hosts,
  deserialize_direct_hosts, check_hosts, validate,
}

abbrev lower : ℕ → ℕ
lower c = if leb b'A' c && leb c b'Z' then c + 32 else c

lower_twice : (c : ℕ) → lower (lower c) ≡ lower c
lower_twice c = ground arith

map-lower_twice : (t : Text) → map lower (map lower t) ≡ map lower t
map-lower_twice [] = refl
map-lower_twice (c ∷ t) = ground (arith, map-lower_twice t)

all-lower :
    (p : ℕ → Bool) (t : Text) → ((c : ℕ) → p (lower c) ≡ p c) → all p (map lower t) ≡ all p t
all-lower p [] h = refl
all-lower p (c ∷ t) h = rw (h c, all-lower p t h) refl

contains-lower : (t : Text) → contains b'.' (map lower t) ≡ contains b'.' t
unfolding contains
contains-lower [] = refl
contains-lower (c ∷ t) = ground (arith, contains-lower t)

length-lower : (t : Text) → length (map lower t) ≡ length t
length-lower [] = refl
length-lower (c ∷ t) = omega (arith, length-lower t)

grow-lower :
    (c : ℕ) (ls : List Text) → grow (lower c) (map (map lower) ls) ≡ map (map lower) (grow c ls)
grow-lower c [] = refl
grow-lower c (l ∷ ls) = refl

split-lower : (t : Text) → split b'.' (map lower t) ≡ map (map lower) (split b'.' t)
unfolding split
split-lower [] = refl
split-lower (c ∷ t) = elim (Bool-cases (c == b'.')) [
  | inl e ↦
      let e' : (lower c == b'.') ≡ true = ground arith in
      rw (e', e) (ap (λ l. [] ∷ l) (split-lower t))
  | inr e ↦
      let e' : (lower c == b'.') ≡ false = ground arith in
      rw (e', e) (ap (grow (lower c)) (split-lower t) ∙ grow-lower c (split b'.' t))
]

last_byte-lower : (c : ℕ) (t : Text) → last_byte (lower c) (map lower t) ≡ lower (last_byte c t)
unfolding last_byte
last_byte-lower c [] = refl
last_byte-lower c (d ∷ t) = last_byte-lower d t

alphanumeric-lower : (c : ℕ) → is_alphanumeric (lower c) ≡ is_alphanumeric c
alphanumeric-lower c = ground arith

dash-lower : (c : ℕ) → (lower c == b'-') ≡ (c == b'-')
dash-lower c = ground arith

label_byte-lower : (c : ℕ) → is_label_byte (lower c) ≡ is_label_byte c
label_byte-lower c = ground arith

digit-lower : (c : ℕ) → is_digit (lower c) ≡ is_digit c
digit-lower c = ground arith

ascii-lower : (c : ℕ) → ltb (lower c) 128 ≡ ltb c 128
ascii-lower c = ground arith

check_label-lower : (l : Text) → check_label (map lower l) ≡ check_label l
unfolding check_label
check_label-lower [] = refl
check_label-lower (c ∷ l) =
    rw
      (
        length-lower l,
        alphanumeric-lower c,
        last_byte-lower c l,
        alphanumeric-lower (last_byte c l),
        dash-lower c,
        all-lower is_label_byte l label_byte-lower,
      )
      refl

check_labels-lower : (ls : List Text) → check_labels (map (map lower) ls) ≡ check_labels ls
unfolding check_labels
check_labels-lower [] = refl
check_labels-lower (l ∷ ls) = rw (check_label-lower l, check_labels-lower ls) refl

numeric-lower : (ls : List Text) → all (all is_digit) (map (map lower) ls) ≡ all (all is_digit) ls
numeric-lower [] = refl
numeric-lower (l ∷ ls) = rw (all-lower is_digit l digit-lower, numeric-lower ls) refl

is_empty-lower : (t : Text) → is_empty (map lower t) ≡ is_empty t
is_empty-lower [] = refl
is_empty-lower (c ∷ t) = refl

abbrev or_none : Result HostError (List Text) → List Text
or_none (ok hosts) = hosts
or_none (err e) = []

checks-lower :
    (is_ip : Text → Bool) (t : Text)
    → is_ip (map lower t) ≡ is_ip t
    → host_checks is_ip (map lower t) ≡ host_checks is_ip t
unfolding host_checks
checks-lower is_ip t h =
    rw
      (
        is_empty-lower t,
        all-lower (λ c. ltb c 128) t ascii-lower,
        length-lower t,
        h,
        contains-lower t,
        split-lower t,
        numeric-lower (split b'.' t),
        check_labels-lower (split b'.' t),
      )
      refl

-- The verdict on a host does not depend on the case of its letters.
canonical-lower :
    (is_ip : Text → Bool) (t : Text)
    → is_ip (to_ascii_lowercase t) ≡ is_ip t
    → canonical_direct_host is_ip (to_ascii_lowercase t) ≡ canonical_direct_host is_ip t
unfolding canonical_direct_host to_ascii_lowercase
canonical-lower is_ip t h =
    ap (λ m. m >> ok (map lower (map lower t))) (checks-lower is_ip t h)
    ∙ ap (λ u. host_checks is_ip t >> ok u) (map-lower_twice t)

canonical-ok :
    (is_ip : Text → Bool) (t host : Text)
    → canonical_direct_host is_ip t ≡ ok host
    → host ≡ to_ascii_lowercase t
unfolding canonical_direct_host
canonical-ok is_ip t host h =
    let (u, e, k) = bind-ok (host_checks is_ip t) (λ x. ok (to_ascii_lowercase t)) host h in cc

abbrev reading_rest : (Text → Bool) → List Text → List Text → Text → Result HostError (List Text)
reading_rest is_ip seen configured host =
    read_hosts is_ip (host ∷ seen) configured >>= λ hosts. ok (host ∷ hosts)

abbrev reading : (Text → Bool) → List Text → List Text → Text → Result HostError (List Text)
reading is_ip seen configured host =
    guard (not (listed seen host)) duplicate >> reading_rest is_ip seen configured host

read_hosts-checked :
    (is_ip : Text → Bool) (configured seen hosts : List Text)
    → ((t : Text) → is_ip (to_ascii_lowercase t) ≡ is_ip t)
    → read_hosts is_ip seen configured ≡ ok hosts
    → check_hosts is_ip seen hosts ≡ ok tt
unfolding read_hosts check_hosts
read_hosts-checked is_ip [] seen hosts blind h =
    ap (λ o. check_hosts is_ip seen (or_none o)) (sym h)
read_hosts-checked is_ip (c ∷ configured) seen hosts blind h =
    let (host, e, k) =
      bind-ok (canonical_direct_host is_ip c) (λ x. reading is_ip seen configured x) hosts h in
    let (u, g, l) =
      bind-ok (guard (not (listed seen host)) duplicate)
        (λ v. reading_rest is_ip seen configured host) hosts k in
    let (rest, r, m) =
      bind-ok (read_hosts is_ip (host ∷ seen) configured) (λ xs. ok (host ∷ xs)) hosts l in
    let lowered = canonical-ok is_ip c host e in
    let again : canonical_direct_host is_ip host ≡ ok host =
      ap (canonical_direct_host is_ip) lowered ∙ canonical-lower is_ip c (blind c) ∙ e in
    ap (λ o. check_hosts is_ip seen (or_none o)) (sym m)
    ∙ rw
        (
          again,
          text_eq_refl host,
          guard-ok (not (listed seen host)) duplicate u g,
          read_hosts-checked is_ip configured (host ∷ seen) rest blind r,
        )
        refl

-- If the test for an address does not look at the case of letters, then the hosts that are read
-- from the configuration pass its validation: each is in its canonical spelling, and none is there
-- twice.
pub validate-deserialize_direct_hosts :
    (is_ip : Text → Bool) (configured hosts : List Text)
    → ((t : Text) → is_ip (to_ascii_lowercase t) ≡ is_ip t)
    → deserialize_direct_hosts is_ip configured ≡ ok hosts
    → validate is_ip hosts ≡ ok tt
unfolding deserialize_direct_hosts validate
validate-deserialize_direct_hosts is_ip configured hosts blind h =
    read_hosts-checked is_ip configured [] hosts blind h
