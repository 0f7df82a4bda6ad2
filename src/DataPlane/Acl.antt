-- ===== src/DataPlane/Acl.antt =====
-- The access-control list of an adapter (src/dataplane.rs, `build_sslocal_acl`).
pub mod Exact
use causeway.Prelude.{Option, none, some, List, [], ◌∷◌, ◌++◌}
use causeway.Prelude.Text.{Text, codes}

acl_lines : List Text → Text
acl_lines [] = []
acl_lines (host ∷ hosts) = b'|' ∷ (host ++ (10 ∷ acl_lines hosts))

-- "[proxy_all]", an empty line and "[bypass_list]".
abbrev header : Text
header = codes "[proxy_all]" ++ (10 ∷ 10 ∷ (codes "[bypass_list]" ++ (10 ∷ [])))

unfoldable pub build_sslocal_acl : List Text → Option Text
unfolding acl_lines
build_sslocal_acl [] = none
build_sslocal_acl (host ∷ hosts) = some (header ++ acl_lines (host ∷ hosts))
