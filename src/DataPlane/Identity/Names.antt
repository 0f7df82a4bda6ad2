-- ===== src/DataPlane/Identity/Names.antt =====
-- An instance name stands for just one identity (src/dataplane.rs).
use causeway.Prelude.{
  ℕ, ◌+◌, ◌*◌, ◌^◌, ◌<◌, ◌≡◌, refl, sym, subst, ap, ◌∙◌, inl, inr, true, false, ◌&&◌, Option, none,
  some, List, [], ◌∷◌, ◌++◌, length, take, drop, all, ltb, ◌==◌, Bool-cases, Option-cases, arith,
}
use causeway.Prelude.Text.{Text, codes, text_eq, text_eq_iff, text_eq_refl}
use causeway.Prelude.Parse.{strip_prefix, digit, digits_from, some_digits, parse_uint, contains}
use causeway.Prelude.Decimal.{
  to_string, parse_uint-to_string, all_digits-to_string, contains-all_digits,
}
use causeway.Prelude.Split.{
  split, split-last, split-append, join, join-split, strip_prefix-append, strip_prefix-parts,
  take-drop, take-append, drop-length,
}
use causeway.DataPlane.Identity.{
  instance_prefix, ProcessIdentity, is_lower_hex, valid_boot_id, valid_nonce, strict_instance_name,
  canonical, from_numbers, from_fields, from_tail, from_rest, identity_from_instance_name,
}

-- An identity that a process can have.
pub record Proper (identity : ProcessIdentity) : Type 0 where
  pub boot : valid_boot_id identity.boot_id ≡ true
  pub pid_fits : identity.pid < 2 ^ 32
  pub start_fits : identity.start_time < 2 ^ 64

digits_from_bounded :
    (limit acc n : ℕ) (s : Text) → acc < limit → digits_from 10 limit acc s ≡ some n → n < limit
unfolding digits_from
digits_from_bounded limit acc n [] h e = ground arith
digits_from_bounded limit acc n (c ∷ s) h e =
    let next = acc * 10 + digit c in
    elim (Bool-cases (ltb (digit c) 10 && ltb next limit)) [
      | inl f ↦ digits_from_bounded limit next n s (ground arith) (ground arith)
      | inr f ↦ absurd (ground arith)
    ]

some_digits_bounded :
    (limit n : ℕ) (s : Text) → 0 < limit → some_digits 10 limit s ≡ some n → n < limit
some_digits_bounded limit n [] h e = absurd cc
some_digits_bounded limit n (c ∷ s) h e = digits_from_bounded limit 0 n (c ∷ s) h e

pub parse_uint_bounded :
    (limit n : ℕ) (s : Text) → 0 < limit → parse_uint 10 limit s ≡ some n → n < limit
unfolding parse_uint
parse_uint_bounded limit n [] h e = absurd cc
parse_uint_bounded limit n (c ∷ s) h e = elim (Bool-cases (c == b'+')) [
  | inl f ↦ some_digits_bounded limit n s h (ground arith)
  | inr f ↦ digits_from_bounded limit 0 n (c ∷ s) h (ground arith)
]

canonical-some :
    (limit n : ℕ) (s : Text)
    → 0 < limit
    → canonical limit s ≡ some n
    → (s ≡ to_string n) × (n < limit)
unfolding canonical
canonical-some limit n s h e = elim (Option-cases (parse_uint 10 limit s)) [
  | inl f ↦ absurd (ground arith)
  | inr (m, f) ↦ elim (Bool-cases (text_eq (to_string m) s)) [
    | inr g ↦ absurd (ground arith)
    | inl g ↦
        let same : m ≡ n = ground arith in
        (
          sym ((text_eq_iff (to_string m) s).0 g) ∙ ap to_string same,
          subst (λ k. k < limit) same (parse_uint_bounded limit m s h f),
        )
  ]
]

written :
    (limit n : ℕ) (s : Text)
    → parse_uint 10 limit s ≡ some n
    → text_eq (to_string n) s ≡ true
    → canonical limit s ≡ some n
unfolding canonical
written limit n s h k = rw (h, k, canonical) refl

canonical-to_string : (limit n : ℕ) → n < limit → canonical limit (to_string n) ≡ some n
canonical-to_string limit n h =
    written limit n (to_string n) (parse_uint-to_string limit n h) (text_eq_refl (to_string n))

no_dash : (n : ℕ) → contains b'-' (to_string n) ≡ false
no_dash n = contains-all_digits b'-' (to_string n) (all_digits-to_string n) refl

no_dash-nonce : (s : Text) → all is_lower_hex s ≡ true → contains b'-' s ≡ false
unfolding contains
no_dash-nonce [] h = refl
no_dash-nonce (c ∷ s) h = ground (arith, no_dash-nonce s)

abbrev pub or_itself : ProcessIdentity → Option ProcessIdentity → ProcessIdentity
or_itself identity none = identity
or_itself identity (some other) = other

from_numbers-some :
    (boot_id : Text) (identity : ProcessIdentity) (a b : Text)
    → valid_boot_id boot_id ≡ true
    → from_numbers boot_id (canonical (2 ^ 32) a) (canonical (2 ^ 64) b) ≡ some identity
    → (a ≡ to_string identity.pid)
      × (b ≡ to_string identity.start_time)
      × ((identity.boot_id ≡ boot_id) × Proper identity)
unfolding from_numbers
from_numbers-some boot_id identity a b v h = elim (Option-cases (canonical (2 ^ 32) a)) [
  | inl e ↦ absurd (ground arith)
  | inr (pid, e) ↦ elim (Option-cases (canonical (2 ^ 64) b)) [
    | inl f ↦ absurd (ground arith)
    | inr (start, f) ↦
        let p = canonical-some (2 ^ 32) pid a (omega arith) e in
        let q = canonical-some (2 ^ 64) start b (omega arith) f in
        let made : record { boot_id = boot_id; pid = pid; start_time = start } ≡ identity =
          ap (or_itself identity) (
            sym (
              ap (λ o. from_numbers boot_id o (canonical (2 ^ 64) b)) e
              ∙ ap (from_numbers boot_id (some pid)) f)
            ∙ h) in
        subst
          (λ i.
            (a ≡ to_string i.pid)
            × (b ≡ to_string i.start_time)
            × ((i.boot_id ≡ boot_id) × Proper i))
          made (p.0, q.0, (refl, record { boot = v; pid_fits = p.1; start_fits = q.1 }))
  ]
]

-- The name after the boot id and its dash.
abbrev fields_text : ProcessIdentity → Text → Text
fields_text identity nonce =
    to_string identity.pid ++ (b'-' ∷ (to_string identity.start_time ++ (b'-' ∷ nonce)))

-- A field of the name, and the name, once the parts are known.
from_fields-some :
    (boot_id : Text) (identity : ProcessIdentity) (fields : List Text)
    → valid_boot_id boot_id ≡ true
    → from_fields boot_id fields ≡ some identity
    → (nonce : Text) × (fields
        ≡ to_string identity.pid ∷ to_string identity.start_time ∷ nonce ∷ [])
      × (identity.boot_id ≡ boot_id)
      × (valid_nonce nonce ≡ true)
      × Proper identity
unfolding from_fields from_numbers
from_fields-some boot_id identity [] v h = absurd cc
from_fields-some boot_id identity (a ∷ []) v h = absurd cc
from_fields-some boot_id identity (a ∷ b ∷ []) v h = absurd cc
from_fields-some boot_id identity (a ∷ b ∷ c ∷ d ∷ fields) v h = absurd cc
from_fields-some boot_id identity (a ∷ b ∷ c ∷ []) v h = elim (Bool-cases (valid_nonce c)) [
  | inr e ↦ absurd (ground arith)
  | inl e ↦
      let q = from_numbers-some boot_id identity a b v (ground arith) in
      (c, ap (λ l. l) (rw (q.0, q.1) refl), q.2.0, e, q.2.1)
]

from_tail-some :
    (boot_id : Text) (identity : ProcessIdentity) (tail : Option Text)
    → valid_boot_id boot_id ≡ true
    → from_tail boot_id tail ≡ some identity
    → (nonce : Text) × (tail
        ≡ some
            (to_string identity.pid ++ (b'-' ∷ (to_string identity.start_time ++ (b'-' ∷ nonce)))))
      × (identity.boot_id ≡ boot_id)
      × (valid_nonce nonce ≡ true)
      × Proper identity
unfolding from_tail
from_tail-some boot_id identity none v h = absurd cc
from_tail-some boot_id identity (some tail) v h =
    let q = from_fields-some boot_id identity (split b'-' tail) v h in
    (q.0, ap some (sym (join-split b'-' tail) ∙ ap (join b'-') q.1), q.2, q.3, q.4)

from_rest-some :
    (identity : ProcessIdentity) (rest : Text)
    → from_rest (some rest) ≡ some identity
    → (nonce : Text) × (instance_prefix ++ rest ≡ strict_instance_name identity nonce)
      × (valid_nonce nonce ≡ true)
      × Proper identity
unfolding from_rest strict_instance_name
from_rest-some identity rest h = elim (Bool-cases (valid_boot_id (take 36 rest))) [
  | inr e ↦ absurd (ground arith)
  | inl e ↦
      let q =
        from_tail-some (take 36 rest) identity (strip_prefix (codes "-") (drop 36 rest)) e
          (ground arith) in
      let after = strip_prefix-parts (codes "-") (drop 36 rest) (fields_text identity q.0) q.1 in
      let whole = sym (take-drop 36 rest) ∙ ap (λ t. take 36 rest ++ t) after in
      (
        q.0,
        ap (λ t. instance_prefix ++ t)
            (whole ∙ ap (λ b. b ++ (b'-' ∷ fields_text identity q.0)) (sym q.2)),
        q.3,
        q.4,
      )
]

of_numbers :
    (identity : ProcessIdentity)
    → from_numbers identity.boot_id (some identity.pid) (some identity.start_time) ≡ some identity
unfolding from_numbers
of_numbers identity = refl

from_fields-all :
    (identity : ProcessIdentity) (nonce : Text)
    → Proper identity
    → valid_nonce nonce ≡ true
    → from_fields identity.boot_id
        (to_string identity.pid ∷ to_string identity.start_time ∷ nonce ∷ [])
      ≡ some identity
unfolding from_fields
from_fields-all identity nonce h k = rw k (
    ap (λ o. from_numbers identity.boot_id o (canonical (2 ^ 64) (to_string identity.start_time)))
      (canonical-to_string (2 ^ 32) identity.pid h.pid_fits)
    ∙ ap (from_numbers identity.boot_id (some identity.pid))
        (canonical-to_string (2 ^ 64) identity.start_time h.start_fits)
    ∙ of_numbers identity)

split-fields :
    (pid start_time : ℕ) (nonce : Text)
    → valid_nonce nonce ≡ true
    → split b'-' (to_string pid ++ (b'-' ∷ (to_string start_time ++ (b'-' ∷ nonce))))
      ≡ to_string pid ∷ to_string start_time ∷ nonce ∷ []
unfolding valid_nonce
split-fields pid start_time nonce h =
    split-append b'-' (to_string pid) _ (no_dash pid)
    ∙ ap (λ l. to_string pid ∷ l)
        (split-append b'-' (to_string start_time) nonce (no_dash start_time)
          ∙ ap (λ l. to_string start_time ∷ l)
              (split-last b'-' nonce (no_dash-nonce nonce (ground arith))))

length-boot : (b : Text) → valid_boot_id b ≡ true → length b ≡ 36
unfolding valid_boot_id
length-boot b h = ground arith

-- A boot id is the first 36 bytes of what it begins.
sliced :
    (b t : Text)
    → valid_boot_id b ≡ true
    → from_rest (some (b ++ (b'-' ∷ t))) ≡ from_tail b (some t)
unfolding from_rest
sliced b t h =
    let n = length-boot b h in
    let whole = b ++ (b'-' ∷ t) in
    let front : take 36 whole ≡ b = ap (λ k. take k whole) (sym n) ∙ take-append b (b'-' ∷ t) in
    let back : drop 36 whole ≡ b'-' ∷ t =
      ap (λ k. drop k whole) (sym n) ∙ drop-length b (b'-' ∷ t) in
    let good : valid_boot_id (take 36 whole) ≡ true = ap valid_boot_id front ∙ h in
    rw good (
      ap (λ f. from_tail f (strip_prefix (codes "-") (drop 36 whole))) front
      ∙ ap (λ d. from_tail b (strip_prefix (codes "-") d)) back
      ∙ ap (from_tail b) (strip_prefix-append (codes "-") t))

recognised :
    (identity : ProcessIdentity) (nonce : Text)
    → Proper identity
    → valid_nonce nonce ≡ true
    → identity_from_instance_name (strict_instance_name identity nonce) ≡ some identity
unfolding identity_from_instance_name strict_instance_name from_tail
recognised identity nonce h k =
    ap from_rest (
      strip_prefix-append instance_prefix (identity.boot_id ++ (b'-' ∷ fields_text identity nonce)))
    ∙ sliced identity.boot_id (fields_text identity nonce) h.boot
    ∙ ap (from_fields identity.boot_id) (split-fields identity.pid identity.start_time nonce k)
    ∙ from_fields-all identity nonce h k

named :
    (identity : ProcessIdentity) (name : Text) (rest : Option Text)
    → strip_prefix instance_prefix name ≡ rest
    → from_rest rest ≡ some identity
    → (nonce : Text) × (name ≡ strict_instance_name identity nonce)
      × (valid_nonce nonce ≡ true)
      × Proper identity
unfolding from_rest
named identity name none e h = absurd cc
named identity name (some rest) e h =
    let q = from_rest-some identity rest h in
    (q.0, strip_prefix-parts instance_prefix name rest e ∙ q.1, q.2, q.3)

-- The directory names that are taken for instances of an identity are just those that
-- `strict_instance_name` makes of it, with a boot id, a process id and a start time that fit and a
-- nonce of 32 lower-case hexadecimal digits.
pub identity_from_instance_name-strict_instance_name :
    (identity : ProcessIdentity)
    → ((nonce : Text)
        → Proper identity
        → valid_nonce nonce ≡ true
        → identity_from_instance_name (strict_instance_name identity nonce) ≡ some identity)
      × ((name : Text)
          → identity_from_instance_name name ≡ some identity
          → (nonce : Text) × (name ≡ strict_instance_name identity nonce)
            × (valid_nonce nonce ≡ true)
            × Proper identity)
unfolding identity_from_instance_name
identity_from_instance_name-strict_instance_name identity = (
  (λ nonce h k. recognised identity nonce h k),
  (λ name h. named identity name (strip_prefix instance_prefix name) refl h),
)
