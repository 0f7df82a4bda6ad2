-- ===== src/DataPlane/Identity/Marker.antt =====
-- The marker file of an instance reads back (src/dataplane.rs, `encode` and `parse`).
use causeway.Prelude.{
  ℕ, ◌+◌, ◌^◌, ◌<◌, ◌≡◌, refl, sym, subst, ap, ◌∙◌, inl, inr, true, false, ◌||◌, Option, none, some,
  List, [], ◌∷◌, ◌++◌, ◌==◌, Bool-cases, arith,
}
use causeway.Prelude.Text.{Text, text_cmp, codes, text_eq, text_eq_iff}
use causeway.Prelude.Parse.{strip_prefix, contains, lines}
use causeway.Prelude.Parse.Lines.{lines-cons, lines-nil}
use causeway.Prelude.Decimal.{
  to_string, is_digit, parse_uint-to_string, all_digits-to_string, contains-all_digits,
}
use causeway.DataPlane.Identity.{
  ProcessIdentity, is_lower_hex, boot_byte, boot_bytes, valid_boot_id, from_numbers, encode, field,
  number_of, checked, with_boot_id, from_lines, parse,
}
use causeway.DataPlane.Identity.Names.{Proper, or_itself, parse_uint_bounded}

not_boot :
    (c index : ℕ) → is_lower_hex c ≡ false → (c == b'-') ≡ false → boot_byte index c ≡ true → ⊥
unfolding boot_byte
not_boot c index k l h =
    elim (Bool-cases (index == 8 || index == 13 || index == 18 || index == 23)) [
      | inl e ↦ ground arith
      | inr e ↦ ground arith
    ]

boot_bytes-plain :
    (c index : ℕ) (s : Text)
    → boot_bytes index s ≡ true
    → is_lower_hex c ≡ false
    → (c == b'-') ≡ false
    → contains c s ≡ false
unfolding boot_bytes boot_byte contains
boot_bytes-plain c index [] h k l = refl
boot_bytes-plain c index (d ∷ s) h k l =
    let here : boot_byte index d ≡ true = ground arith in
    let rest = boot_bytes-plain c (index + 1) s (ground arith) k l in
    elim (Bool-cases (d == c)) [
      | inr e ↦ rw (e, rest) refl
      | inl e ↦ absurd (
          let same : d ≡ c = ground arith in
          not_boot c index k l (ap (boot_byte index) (sym same) ∙ here))
    ]

boot-plain :
    (c : ℕ) (b : Text)
    → valid_boot_id b ≡ true
    → is_lower_hex c ≡ false
    → (c == b'-') ≡ false
    → contains c b ≡ false
unfolding valid_boot_id
boot-plain c b h k l = boot_bytes-plain c 0 b (ground arith) k l

number-plain : (c n : ℕ) → is_digit c ≡ false → contains c (to_string n) ≡ false
number-plain c n h = contains-all_digits c (to_string n) (all_digits-to_string n) h

encoded_lines :
    (identity : ProcessIdentity)
    → Proper identity
    → lines (encode identity)
      ≡ codes "schema=1"
        ∷ (codes "boot_id=" ++ identity.boot_id)
        ∷ (codes "pid=" ++ to_string identity.pid)
        ∷ (codes "start_time=" ++ to_string identity.start_time)
        ∷ []
unfolding encode contains
encoded_lines identity h =
    let boot = λ (c : ℕ). boot-plain c identity.boot_id h.boot in
    let start = codes "start_time=" ++ (to_string identity.start_time ++ (10 ∷ [])) in
    let pid = codes "pid=" ++ (to_string identity.pid ++ (10 ∷ start)) in
    lines-cons b's' (codes "chema=1") (codes "boot_id=" ++ (identity.boot_id ++ (10 ∷ pid))) refl
      refl
    ∙ ap (λ l. codes "schema=1" ∷ l)
        (lines-cons b'b' (codes "oot_id=" ++ identity.boot_id) pid (boot 10 refl refl)
            (boot 13 refl refl)
          ∙ ap (λ l. (codes "boot_id=" ++ identity.boot_id) ∷ l)
              (lines-cons b'p' (codes "id=" ++ to_string identity.pid) start
                  (number-plain 10 identity.pid refl) (number-plain 13 identity.pid refl)
                ∙ ap (λ l. (codes "pid=" ++ to_string identity.pid) ∷ l)
                    (lines-cons b's' (codes "tart_time=" ++ to_string identity.start_time) []
                        (number-plain 10 identity.start_time refl)
                        (number-plain 13 identity.start_time refl)
                      ∙ ap (λ l. (codes "start_time=" ++ to_string identity.start_time) ∷ l)
                          lines-nil)))

read_fields :
    (identity : ProcessIdentity)
    → Proper identity
    → with_boot_id
        (some identity.boot_id)
        (number_of (2 ^ 32) (some (to_string identity.pid)))
        (number_of (2 ^ 64) (some (to_string identity.start_time)))
      ≡ some identity
unfolding with_boot_id number_of from_numbers
read_fields identity h =
    rw
      (
        h.boot,
        parse_uint-to_string (2 ^ 32) identity.pid h.pid_fits,
        parse_uint-to_string (2 ^ 64) identity.start_time h.start_fits,
      )
      refl

accepted :
    (value : Text) (identity : ProcessIdentity)
    → value ≡ encode identity
    → checked value (some identity) ≡ some identity
unfolding checked
accepted value identity e = rw ((text_eq_iff value (encode identity)).1 e) refl

checked-some :
    (value : Text) (o : Option ProcessIdentity) (identity : ProcessIdentity)
    → checked value o ≡ some identity
    → (value ≡ encode identity) × (o ≡ some identity)
unfolding checked
checked-some value none identity h = absurd cc
checked-some value (some i) identity h = elim (Bool-cases (text_eq value (encode i))) [
  | inr e ↦ absurd (ground arith)
  | inl e ↦
      let same : ◌≡◌ {A = Option ProcessIdentity} (some i) (some identity) = ground arith in
      ((text_eq_iff value (encode i)).0 e ∙ ap (λ o. encode (or_itself identity o)) same, same)
]

number_of_bounded :
    (limit n : ℕ) (o : Option Text) → 0 < limit → number_of limit o ≡ some n → n < limit
unfolding number_of
number_of_bounded limit n none h e = absurd cc
number_of_bounded limit n (some t) h e = parse_uint_bounded limit n t h e

with_boot_id-some :
    (b : Option Text) (p q : Option ℕ) (identity : ProcessIdentity)
    → ((n : ℕ) → p ≡ some n → n < 2 ^ 32)
    → ((n : ℕ) → q ≡ some n → n < 2 ^ 64)
    → with_boot_id b p q ≡ some identity
    → Proper identity
unfolding with_boot_id from_numbers
with_boot_id-some none p q identity f g h = absurd cc
with_boot_id-some (some b) none q identity f g h = absurd (ground arith)
with_boot_id-some (some b) (some n) none identity f g h = absurd (ground arith)
with_boot_id-some (some b) (some n) (some m) identity f g h = elim (Bool-cases (valid_boot_id b)) [
  | inr e ↦ absurd (ground arith)
  | inl e ↦
      let made : some (record { boot_id = b; pid = n; start_time = m }) ≡ some identity =
        ground arith in
      subst Proper (ap (or_itself identity) made)
        (record { boot = e; pid_fits = f n refl; start_fits = g m refl })
]

from_lines-some :
    (value : Text) (ls : List Text) (identity : ProcessIdentity)
    → from_lines value ls ≡ some identity
    → (value ≡ encode identity) × Proper identity
unfolding from_lines
from_lines-some value [] identity h = absurd cc
from_lines-some value (a ∷ []) identity h = absurd cc
from_lines-some value (a ∷ b ∷ []) identity h = absurd cc
from_lines-some value (a ∷ b ∷ c ∷ []) identity h = absurd cc
from_lines-some value (a ∷ b ∷ c ∷ d ∷ e ∷ ls) identity h = absurd cc
from_lines-some value (a ∷ b ∷ c ∷ d ∷ []) identity h =
    elim (Bool-cases (text_eq a (codes "schema=1"))) [
      | inr e ↦ absurd (ground arith)
      | inl e ↦
          let pid = number_of (2 ^ 32) (field (codes "pid=") c) in
          let start = number_of (2 ^ 64) (field (codes "start_time=") d) in
          let q =
            checked-some value (with_boot_id (field (codes "boot_id=") b) pid start) identity
              (ground arith) in
          (
            q.0,
            with_boot_id-some (field (codes "boot_id=") b) pid start identity
                (λ n. number_of_bounded (2 ^ 32) n (field (codes "pid=") c) (omega arith))
                (λ n. number_of_bounded (2 ^ 64) n (field (codes "start_time=") d) (omega arith))
                q.1,
          )
    ]

from_lines-encoded :
    (identity : ProcessIdentity) (value : Text)
    → value ≡ encode identity
    → Proper identity
    → from_lines value (
        codes "schema=1"
        ∷ (codes "boot_id=" ++ identity.boot_id)
        ∷ (codes "pid=" ++ to_string identity.pid)
        ∷ (codes "start_time=" ++ to_string identity.start_time)
        ∷ [])
      ≡ some identity
unfolding from_lines field strip_prefix text_cmp
from_lines-encoded identity value e h =
    ap (checked value) (read_fields identity h) ∙ accepted value identity e

-- The marker of an identity that a process can have is read back as that identity, and nothing else
-- is read as it.
pub parse-encode :
    (identity : ProcessIdentity)
    → (Proper identity → parse (encode identity) ≡ some identity)
      × ((value : Text) → parse value ≡ some identity → (value ≡ encode identity) × Proper identity)
unfolding parse
parse-encode identity = (
  (λ h.
      ap (from_lines (encode identity)) (encoded_lines identity h)
      ∙ from_lines-encoded identity (encode identity) refl h),
  (λ value h. from_lines-some value (lines value) identity h),
)
