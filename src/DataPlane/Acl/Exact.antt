-- ===== src/DataPlane/Acl/Exact.antt =====
-- The list names just the validated hosts (src/dataplane.rs and src/config.rs).
use causeway.Prelude.{
  ℕ, ◌≡◌, refl, sym, ap, ◌∙◌, Bool, true, false, some, List, [], ◌∷◌, ◌++◌, all, ◌==◌, Bool-cases,
  inl, inr, map, arith,
}
use causeway.Prelude.Text.{Text, codes}
use causeway.Prelude.Parse.{contains, lines}
use causeway.Prelude.Parse.Lines.{lines-cons, lines-nil, lines-empty}
use causeway.Prelude.Result.{ok}
use causeway.Config.Hosts.{validate}
use causeway.Config.Hosts.Plain.{is_host_byte, all_plain, validate-plain}
use causeway.DataPlane.Acl.{acl_lines, header, build_sslocal_acl}

host_byte-not :
    (c : ℕ) (h : Text) → all is_host_byte h ≡ true → is_host_byte c ≡ false → contains c h ≡ false
unfolding contains
host_byte-not c [] h k = refl
host_byte-not c (d ∷ t) h k = elim (Bool-cases (d == c)) [
  | inl e ↦ absurd (let same : d ≡ c = ground arith in let q = ap is_host_byte same in ground arith)
  | inr e ↦ rw e (host_byte-not c t (ground arith) k)
]

lines-acl_lines :
    (hosts : List Text)
    → all_plain hosts ≡ true
    → lines (acl_lines hosts) ≡ map (λ h. b'|' ∷ h) hosts
unfolding acl_lines contains
lines-acl_lines [] h = lines-nil
lines-acl_lines (host ∷ hosts) h =
    let bytes : all is_host_byte host ≡ true = ground arith in
    lines-cons b'|' host (acl_lines hosts) (host_byte-not 10 host bytes refl)
      (host_byte-not 13 host bytes refl)
    ∙ ap (λ l. (b'|' ∷ host) ∷ l) (lines-acl_lines hosts (ground arith))

lines-header :
    (t : Text) → lines (header ++ t) ≡ codes "[proxy_all]" ∷ [] ∷ codes "[bypass_list]" ∷ lines t
unfolding contains
lines-header t =
    lines-cons b'[' (codes "proxy_all]") (10 ∷ (codes "[bypass_list]" ++ (10 ∷ t))) refl refl
    ∙ ap (λ l. codes "[proxy_all]" ∷ l)
        (lines-empty b'[' (codes "bypass_list]" ++ (10 ∷ t)) refl
          ∙ ap (λ l. [] ∷ l) (lines-cons b'[' (codes "bypass_list]") t refl refl))

-- The access-control list of validated hosts has the two headings and then one line for each host,
-- with the bar of an exact match before it: no host brings in a line of its own.
pub build_sslocal_acl-lines :
    (is_ip : Text → Bool) (hosts : List Text) (acl : Text)
    → validate is_ip hosts ≡ ok tt
    → build_sslocal_acl hosts ≡ some acl
    → lines acl ≡ codes "[proxy_all]" ∷ [] ∷ codes "[bypass_list]" ∷ map (λ h. b'|' ∷ h) hosts
unfolding build_sslocal_acl
build_sslocal_acl-lines is_ip [] acl v h = absurd cc
build_sslocal_acl-lines is_ip (host ∷ hosts) acl v h =
    let same : header ++ acl_lines (host ∷ hosts) ≡ acl = cc in
    ap lines (sym same)
    ∙ lines-header (acl_lines (host ∷ hosts))
    ∙ ap (λ l. codes "[proxy_all]" ∷ [] ∷ codes "[bypass_list]" ∷ l)
        (lines-acl_lines (host ∷ hosts) (validate-plain is_ip (host ∷ hosts) v))
