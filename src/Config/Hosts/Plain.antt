-- ===== src/Config/Hosts/Plain.antt =====
-- The bytes of a validated host (src/config.rs).
use causeway.Prelude.{
  ℕ, ◌≡◌, refl, sym, ap, ◌∙◌, Bool, true, false, not, ◌&&◌, ◌||◌, List, [], ◌∷◌, ◌++◌, all, leb,
  ◌==◌, arith, ltb, length,
}
use causeway.Prelude.Text.{Text, text_eq}
use causeway.Prelude.Parse.{contains, to_ascii_lowercase}
use causeway.Prelude.Split.{split, join, join-split}
use causeway.Prelude.Result.{Result, ok, ◌>>◌, guard, bind-ok, guard-ok}
use causeway.Config.Hosts.{
  HostError, is_alphanumeric, is_label_byte, check_label, check_labels, host_checks,
  canonical_direct_host, listed, check_hosts, validate, label_bytes, long_label, label_ends,
  not_canonical, duplicate, is_empty, last_byte, is_digit, empty_host, not_ascii, too_long,
  ip_literal, no_dot, numeric,
}

abbrev pub is_host_byte : ℕ → Bool
is_host_byte c = is_label_byte c || c == b'.'

abbrev nonempty : Text → Bool
nonempty [] = false
nonempty (c ∷ t) = true

abbrev pub is_plain : Text → Bool
is_plain h = nonempty h && all is_host_byte h

all-label : (t : Text) → all is_label_byte t ≡ true → all is_host_byte t ≡ true
all-label [] h = refl
all-label (c ∷ t) h = ground (arith, all-label t)

all-append :
    (s t : Text)
    → all is_host_byte s ≡ true
    → all is_host_byte t ≡ true
    → all is_host_byte (s ++ t) ≡ true
all-append [] t h k = k
all-append (c ∷ s) t h k = ground (arith, all-append s t)

check_label-bytes : (l : Text) → check_label l ≡ ok tt → all is_host_byte l ≡ true
unfolding check_label
check_label-bytes [] h = absurd cc
check_label-bytes (c ∷ l) h =
    let (u, e, k) =
      bind-ok
        (guard (leb (length (c ∷ l)) 63) long_label
          >> guard (is_alphanumeric c && is_alphanumeric (last_byte c l)) label_ends)
        (λ v. guard (all is_label_byte (c ∷ l)) label_bytes) tt h in
    all-label (c ∷ l) (guard-ok (all is_label_byte (c ∷ l)) label_bytes tt k)

check_labels-bytes :
    (ls : List Text) → check_labels ls ≡ ok tt → all is_host_byte (join b'.' ls) ≡ true
unfolding check_labels
check_labels-bytes [] h = refl
check_labels-bytes (l ∷ []) h =
    let (u, e, k) = bind-ok (check_label l) (λ v. check_labels []) tt h in check_label-bytes l e
check_labels-bytes (l ∷ m ∷ ls) h =
    let (u, e, k) = bind-ok (check_label l) (λ v. check_labels (m ∷ ls)) tt h in
    all-append l (b'.' ∷ join b'.' (m ∷ ls)) (check_label-bytes l e) (check_labels-bytes (m ∷ ls) k)

labels-plain : (t : Text) → check_labels (split b'.' t) ≡ ok tt → is_plain t ≡ true
unfolding split check_labels check_label
labels-plain [] h = absurd cc
labels-plain (c ∷ t) h =
    ap (all is_host_byte) (sym (join-split b'.' (c ∷ t)))
    ∙ check_labels-bytes (split b'.' (c ∷ t)) h

canonical-plain :
    (is_ip : Text → Bool) (t host : Text)
    → canonical_direct_host is_ip t ≡ ok host
    → is_plain t ≡ true
unfolding canonical_direct_host host_checks
canonical-plain is_ip t host h =
    let (u, e, k) = bind-ok (host_checks is_ip t) (λ x. ok (to_ascii_lowercase t)) host h in
    let (v, f, l) =
      bind-ok
        (guard (not (is_empty t)) empty_host
          >> guard (all (λ c. ltb c 128) t) not_ascii
          >> guard (leb (length t) 253) too_long
          >> guard (not (is_ip t)) ip_literal
          >> guard (contains b'.' t) no_dot
          >> guard (not (all (all is_digit) (split b'.' t))) numeric)
        (λ x. check_labels (split b'.' t)) u e in
    labels-plain t l

abbrev pub all_plain : List Text → Bool
all_plain [] = true
all_plain (h ∷ hs) = is_plain h && all_plain hs

abbrev checking : (Text → Bool) → List Text → Text → List Text → Text → Result HostError (Unit {0})
checking is_ip seen host hosts c =
    guard (text_eq c host) not_canonical
    >> guard (not (listed seen c)) duplicate
    >> check_hosts is_ip (c ∷ seen) hosts

check_hosts-plain :
    (is_ip : Text → Bool) (seen hosts : List Text)
    → check_hosts is_ip seen hosts ≡ ok tt
    → all_plain hosts ≡ true
unfolding check_hosts
check_hosts-plain is_ip seen [] h = refl
check_hosts-plain is_ip seen (host ∷ hosts) h =
    let (c, e, k) =
      bind-ok (canonical_direct_host is_ip host) (checking is_ip seen host hosts) tt h in
    let (u, f, l) =
      bind-ok (guard (text_eq c host) not_canonical >> guard (not (listed seen c)) duplicate)
        (λ v. check_hosts is_ip (c ∷ seen) hosts) tt k in
    let here = canonical-plain is_ip host c e in
    let rest = check_hosts-plain is_ip (c ∷ seen) hosts l in rw (here, rest) refl

pub validate-plain :
    (is_ip : Text → Bool) (hosts : List Text)
    → validate is_ip hosts ≡ ok tt
    → all_plain hosts ≡ true
unfolding validate
validate-plain is_ip hosts h = check_hosts-plain is_ip [] hosts h
