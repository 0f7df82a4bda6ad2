-- ===== src/Tests/Configuring.antt =====
-- The theorems on the configuration at concrete sections.
use causeway.Prelude.{◌≡◌, refl, Bool, true, false, none, some, List, [], ◌∷◌, ◌++◌, map}
use causeway.Prelude.Text.{Text, codes, text_cmp}
use causeway.Prelude.Int.{ℤ, pos}
use causeway.Prelude.Parse.{
  to_ascii_lowercase, contains, split_where, strip_prefix, rsplit_once, parse_uint, digits_from,
  lines, trim, trim_start, trim_end, starts_with,
}
use causeway.Prelude.Split.{split}
use causeway.Prelude.Result.{ok}
use causeway.Health.Target.{valid_target, split_connect_target}
use causeway.Config.{v4, ClassConfig, Config, class_health_url, class_health_samples}
use causeway.Config.Hosts.{deserialize_direct_hosts, validate}
use causeway.Config.Hosts.Canonical.{validate-deserialize_direct_hosts}
use causeway.Config.Validate.{validate_at}
use causeway.Config.Validate.Policy.{Affordable, validate_at-Affordable}
use causeway.DataPlane.Acl.{build_sslocal_acl}
use causeway.DataPlane.Acl.Exact.{build_sslocal_acl-lines}
use causeway.Tests.Choosing.{milli}

-- None of these is an address.
abbrev not_ip : Text → Bool
not_ip t = false

abbrev written : List Text
written = codes "API.example.com" ∷ codes "cdn.example.org" ∷ []

abbrev hosts : List Text
hosts = codes "api.example.com" ∷ codes "cdn.example.org" ∷ []

hosts_read : deserialize_direct_hosts not_ip written ≡ ok hosts
unfolding deserialize_direct_hosts contains split to_ascii_lowercase text_cmp
hosts_read = refl

validate-deserialize_direct_hosts_example : validate not_ip hosts ≡ ok tt
validate-deserialize_direct_hosts_example =
    validate-deserialize_direct_hosts not_ip written hosts (λ t. refl) hosts_read

hosts_valid : validate not_ip hosts ≡ ok tt
unfolding validate contains split to_ascii_lowercase text_cmp
hosts_valid = refl

abbrev acl : Text
acl =
    codes "[proxy_all]"
    ++ (10
        ∷ 10
        ∷ (codes "[bypass_list]"
            ++ (10 ∷ (codes "|api.example.com" ++ (10 ∷ (codes "|cdn.example.org" ++ (10 ∷ [])))))))

acl_built : build_sslocal_acl hosts ≡ some acl
unfolding build_sslocal_acl
acl_built = refl

build_sslocal_acl-lines_example :
    lines acl ≡ codes "[proxy_all]" ∷ [] ∷ codes "[bypass_list]" ∷ map (λ h. b'|' ∷ h) hosts
build_sslocal_acl-lines_example = build_sslocal_acl-lines not_ip hosts acl hosts_valid acl_built

abbrev media : ClassConfig
media = record {
  listen = record { ip = v4 2130706433; port = 20101 };
  selection = none;
  health = some (record { url = some (codes "connect://example.com"); samples = some 4 });
}

abbrev cfg : Config ℤ
cfg = record {
  classes = (codes "media", media) ∷ [];
  direct_hosts = hosts;
  probe = record { interval_secs = 300; timeout_ms = 5000; concurrency = 16 };
  health = record {
    interval_secs = 30;
    timeout_ms = 5000;
    fail_threshold = 3;
    url = codes "http://example.com/generate_204";
    samples = 1;
    drain_grace_secs = 10;
  };
  sites = record {
    timeout_ms = 8000;
    max_candidates = 5;
    verdict_ttl_secs = 1800;
    user_agent = codes "Mozilla";
    list = (codes "shop", codes "https://shop.example.com/") ∷ [];
  };
  selection = record {
    hysteresis = pos 300;
    ema_alpha = pos 300;
    regions = [];
    auto_switch = true;
  };
}

cfg_valid : validate_at milli not_ip (ok tt) cfg ≡ ok tt
unfolding validate_at validate valid_target split_connect_target contains split split_where
    strip_prefix rsplit_once parse_uint digits_from starts_with trim trim_start trim_end
    to_ascii_lowercase text_cmp
cfg_valid = refl

validate_at-Affordable_example :
    (valid_target (class_health_url cfg (codes "media")) ≡ true)
    × Affordable cfg.health (class_health_samples cfg (codes "media"))
validate_at-Affordable_example =
    validate_at-Affordable milli not_ip (ok tt) cfg (codes "media") cfg_valid
