-- ===== src/Health/Target/Authority.antt =====
-- What `split_connect_target` of src/health.rs accepts, and what it makes of it.
use causeway.Prelude.{
  ℕ, ◌^◌, ◌≡◌, refl, subst, ap, ◌∙◌, inl, inr, Bool, false, ◌||◌, Option, none, some, [], ◌∷◌, ◌++◌,
  any, ◌==◌, Option-cases, arith,
}
use causeway.Prelude.Text.{Text, codes}
use causeway.Prelude.Parse.{strip_prefix, contains, rsplit_once, parse_uint, digits_from}
use causeway.Prelude.Split.{strip_prefix-append}
use causeway.Prelude.Result.{ok}
use causeway.Health.Target.{
  is_unprintable, is_whitespace, is_control, is_bad, checked_port, with_port, connect_rest,
  split_connect_target, is_empty,
}

-- `host:port`, with a host that has no colon and a port from 1 to 65535.
pub record Authority (a : Text) : Type 0 where
  pub host : Text
  pub port : Text
  pub number : ℕ
  pub parts : a ≡ host ++ (b':' ∷ port)
  pub named : is_empty host ≡ false
  pub plain : (contains b':' host ≡ false) × (contains b':' port ≡ false)
  pub parsed : parse_uint 10 (2 ^ 16) port ≡ some number
  pub usable : (number == 0) ≡ false
  pub printable : any is_bad a ≡ false

contains-rsplit_once : (c : ℕ) (t : Text) → rsplit_once c t ≡ none → contains c t ≡ false
unfolding rsplit_once contains
contains-rsplit_once c [] h = refl
contains-rsplit_once c (d ∷ ds) h = ground (arith, contains-rsplit_once c ds)

rsplit_once-parts :
    (c : ℕ) (t before after : Text)
    → rsplit_once c t ≡ some (before, after)
    → (t ≡ before ++ (c ∷ after)) × (contains c after ≡ false)
unfolding rsplit_once
rsplit_once-parts c [] before after h = absurd cc
rsplit_once-parts c (d ∷ ds) before after h = elim (Option-cases (rsplit_once c ds)) [
  | inl e ↦ ground (arith, contains-rsplit_once c ds e)
  | inr ((b, a), e) ↦ ground (arith, rsplit_once-parts c ds b a e)
]

rsplit_once-nil : (c : ℕ) (t : Text) → contains c t ≡ false → rsplit_once c t ≡ none
unfolding rsplit_once contains
rsplit_once-nil c [] h = refl
rsplit_once-nil c (d ∷ ds) h = ground (arith, rsplit_once-nil c ds)

rsplit_once-append :
    (c : ℕ) (before after : Text)
    → contains c after ≡ false
    → rsplit_once c (before ++ (c ∷ after)) ≡ some (before, after)
unfolding rsplit_once
rsplit_once-append c [] after h = ground (arith, rsplit_once-nil c after h)
rsplit_once-append c (d ∷ before) after h = ground (arith, rsplit_once-append c before after h)

any-append : (p : ℕ → Bool) (s t : Text) → any p (s ++ t) ≡ (any p s || any p t)
any-append p [] t = refl
any-append p (c ∷ s) t = ground (arith, any-append p s t)

checked_port-ok :
    (host : Text) (port : Option ℕ)
    → checked_port host port ≡ ok tt
    → (n : ℕ) × (port ≡ some n)
      × ((n == 0) ≡ false)
      × (is_empty host ≡ false)
      × (contains b':' host ≡ false)
unfolding checked_port
checked_port-ok host none h = absurd cc
checked_port-ok host (some n) h = (n, refl, ground arith, ground arith, ground arith)

checked_port-all :
    (host : Text) (n : ℕ)
    → (n == 0) ≡ false
    → is_empty host ≡ false
    → contains b':' host ≡ false
    → checked_port host (some n) ≡ ok tt
unfolding checked_port
checked_port-all host n z e c = ground arith

default_port :
    (parse_uint 10 (2 ^ 16) (codes "443") ≡ some 443)
    × (contains b':' (codes "443") ≡ false)
    × (any is_bad (codes ":443") ≡ false)
unfolding parse_uint digits_from contains is_bad is_unprintable is_whitespace is_control
default_port = (refl, refl, refl)

with_port-Authority :
    (rest a : Text) (o : Option (Text × Text))
    → rsplit_once b':' rest ≡ o
    → any is_bad rest ≡ false
    → is_empty rest ≡ false
    → with_port rest o ≡ ok a
    → Authority a
unfolding with_port
with_port-Authority rest a none e b n h =
    let same : rest ++ codes ":443" ≡ a = cc in
    subst Authority same (record {
      host = rest;
      port = codes "443";
      number = 443;
      parts = refl;
      named = n;
      plain = (contains-rsplit_once b':' rest e, default_port.1);
      parsed = default_port.0;
      usable = refl;
      printable = any-append is_bad rest (codes ":443") ∙ rw (b, default_port.2) refl;
    })
with_port-Authority rest a (some (host, port)) e b n h =
    let parts = rsplit_once-parts b':' rest host port e in
    let unit = checked_port host (parse_uint 10 (2 ^ 16) port) in
    let checks = checked_port-ok host (parse_uint 10 (2 ^ 16) port) (ground arith) in
    let same : rest ≡ a = ground arith in
    subst Authority same (record {
      host = host;
      port = port;
      number = checks.0;
      parts = parts.0;
      named = checks.3;
      plain = (checks.4, parts.1);
      parsed = checks.1;
      usable = checks.2;
      printable = b;
    })

connect_rest-Authority : (o : Option Text) (a : Text) → connect_rest o ≡ ok a → Authority a
unfolding connect_rest
connect_rest-Authority none a h = absurd cc
connect_rest-Authority (some rest) a h =
    with_port-Authority rest a (rsplit_once b':' rest) refl (ground arith) (ground arith)
      (ground arith)

-- An authority is accepted as it stands.
Authority-connect_rest : (a : Text) → Authority a → connect_rest (some a) ≡ ok a
unfolding connect_rest with_port
Authority-connect_rest a h =
    let split = ap (rsplit_once b':') h.parts ∙ rsplit_once-append b':' h.host h.port h.plain.1 in
    let nonempty : is_empty a ≡ false = rw (h.parts) (ground arith) in
    let checks = checked_port-all h.host h.number h.usable h.named h.plain.0 in
    rw (h.printable, nonempty, split, h.parsed, checks) refl

-- What `split_connect_target` returns is a host without a colon and a port from 1 to 65535, with no
-- path, query, fragment, user or unprintable character; and the results are just those: one that is
-- given back as a target is returned unchanged.
pub split_connect_target-Authority :
    (a : Text)
    → ((url : Text) → split_connect_target url ≡ ok a → Authority a)
      × (Authority a → split_connect_target (codes "connect://" ++ a) ≡ ok a)
unfolding split_connect_target
split_connect_target-Authority a = (
  (λ url. connect_rest-Authority (strip_prefix (codes "connect://") url) a),
  (λ h. ap connect_rest (strip_prefix-append (codes "connect://") a) ∙ Authority-connect_rest a h),
)
