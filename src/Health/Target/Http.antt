-- ===== src/Health/Target/Http.antt =====
-- Which http:// targets of src/health.rs are valid.
use causeway.Prelude.{◌≡◌, refl, ap, ◌∙◌, true, false, some, ◌++◌, any}
use causeway.Prelude.Text.{Text, codes}
use causeway.Prelude.Parse.{strip_prefix, contains, split_where, starts_with}
use causeway.Prelude.Split.{strip_prefix-parts}
use causeway.Health.Target.{
  is_unprintable, is_path_start, is_empty, split_rest, split_url, valid_target, is_ok,
}

not_connect : (rest : Text) → starts_with (codes "connect://") (codes "http://" ++ rest) ≡ false
unfolding starts_with
not_connect rest = refl

split_rest-ok :
    (url rest : Text)
    → any is_unprintable url ≡ false
    → contains b'#' url ≡ false
    → is_empty (split_where is_path_start rest).0 ≡ false
    → contains b'@' (split_where is_path_start rest).0 ≡ false
    → is_ok (split_rest url (some rest)) ≡ true
unfolding split_rest
split_rest-ok url rest a b c d = rw (a, b, c, d) refl

-- The conditions under which `split_url` accepts.
pub valid_target-http :
    (url rest : Text)
    → strip_prefix (codes "http://") url ≡ some rest
    → any is_unprintable url ≡ false
    → contains b'#' url ≡ false
    → is_empty (split_where is_path_start rest).0 ≡ false
    → contains b'@' (split_where is_path_start rest).0 ≡ false
    → valid_target url ≡ true
unfolding valid_target split_url
valid_target-http url rest h a b c d =
    let other : starts_with (codes "connect://") url ≡ false =
      ap (starts_with (codes "connect://")) (strip_prefix-parts (codes "http://") url rest h)
      ∙ not_connect rest in
    rw other (ap (λ o. is_ok (split_rest url o)) h ∙ split_rest-ok url rest a b c d)
