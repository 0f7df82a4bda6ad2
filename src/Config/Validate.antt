-- ===== src/Config/Validate.antt =====
-- The validation of the configuration (src/config.rs, `validate_at`). The checks of paths and of
-- the subscriptions section are an argument; warnings are left out.
pub mod Policy
use causeway.Prelude.{
  ℕ, ◌+◌, ◌*◌, ◌/◌, ◌-◌, ◌^◌, ◌≤◌, min, Bool, true, false, not, ◌&&◌, ◌||◌, Option, none, some,
  List, [], ◌∷◌, any, ltb, leb, ◌==◌, if◌then◌else◌,
}
use causeway.Prelude.Text.{Text, codes}
use causeway.Prelude.Map.{Map}
use causeway.Prelude.Parse.{strip_prefix, contains, split_where, trim}
use causeway.Prelude.Result.{Result, ok, err, ◌>>=◌, ◌>>◌, guard}
use causeway.Score.{Float}
use causeway.Health.Target.{is_unprintable, valid_target}
use causeway.Config.{
  IpAddr, v4, v6, ListenAddr, ClassSelection, ClassHealth, ClassConfig, ProbeConfig, HealthConfig,
  SitesConfig, SelectionConfig, Config,
}
use causeway.Config.Hosts
use causeway.Config.Hosts.{HostError}

pub data ConfigError : Type 0 where
  no_classes not_loopback shared_listen empty_regions empty_url bad_target : ConfigError
  class_samples class_budget : ConfigError
  host_error : HostError → ConfigError
  path_error zero_interval probe_interval health_interval : ConfigError
  zero_concurrency concurrency_limit zero_timeout probe_timeout health_timeout : ConfigError
  zero_threshold threshold_limit drain_grace global_samples global_budget hysteresis ema_alpha :
      ConfigError
  health_url site_url zero_site_timeout site_timeout zero_candidates candidates_limit : ConfigError
  verdict_ttl user_agent : ConfigError

abbrev pub max_health_tick_budget_ms : ℕ
max_health_tick_budget_ms = 60_000

abbrev pub max_interval_secs : ℕ
max_interval_secs = 86_400

abbrev pub max_timeout_ms : ℕ
max_timeout_ms = 60_000

abbrev pub max_drain_grace_secs : ℕ
max_drain_grace_secs = 3600

abbrev pub max_verdict_ttl_secs : ℕ
max_verdict_ttl_secs = 86_400

abbrev pub max_fail_threshold : ℕ
max_fail_threshold = 100

abbrev pub max_probe_concurrency : ℕ
max_probe_concurrency = 1024

abbrev pub max_site_candidates : ℕ
max_site_candidates = 64

abbrev u64_max : ℕ
u64_max = 2 ^ 64 - 1

-- `u64::saturating_mul` and `saturating_add`.
abbrev pub health_tick_budget_ms : ℕ → ℕ → ℕ
health_tick_budget_ms samples timeout_ms = min (samples * min (timeout_ms + 1000) u64_max) u64_max

abbrev pub tick_cap : HealthConfig → ℕ
tick_cap health = min (min (health.interval_secs * 1000) u64_max) max_health_tick_budget_ms

abbrev is_path_start : ℕ → Bool
is_path_start c = c == b'/' || c == b'?'

abbrev is_empty : Text → Bool
is_empty [] = true
is_empty (c ∷ t) = false

-- What follows the scheme has an authority without a user.
valid_rest : Text → Option Text → Bool
unfolding contains split_where
valid_rest url none = false
valid_rest url (some rest) =
    let authority = (split_where is_path_start rest).0 in
    not (any is_unprintable url)
    && not (contains b'#' url)
    && not (is_empty authority)
    && not (contains b'@' authority)

pub valid_health_url : Text → Bool
unfolding valid_rest strip_prefix
valid_health_url url = valid_rest url (strip_prefix (codes "http://") url)

pub valid_site_url : Text → Bool
unfolding valid_rest strip_prefix
valid_site_url url = valid_rest url (strip_prefix (codes "https://") url)

is_loopback : IpAddr → Bool
is_loopback (v4 ip) = ip / 2 ^ 24 == 127
is_loopback (v6 ip) = ip == 1

same_ip : IpAddr → IpAddr → Bool
same_ip (v4 a) (v4 b) = a == b
same_ip (v6 a) (v6 b) = a == b
same_ip (v4 a) (v6 b) = false
same_ip (v6 a) (v4 b) = false

pub same_listen : ListenAddr → ListenAddr → Bool
unfolding same_ip
same_listen a b = same_ip a.ip b.ip && a.port == b.port

check_selection : Option ClassSelection → Result ConfigError (Unit {0})
check_selection none = ok tt
check_selection (some s) = elim s.regions [
  | none ↦ ok tt
  | some regions ↦ elim regions [ [] ↦ err empty_regions | r ∷ rs ↦ ok tt ]
]

check_url : Option Text → Result ConfigError (Unit {0})
check_url none = ok tt
check_url (some url) = guard (not (is_empty url)) empty_url >> guard (valid_target url) bad_target

check_samples : HealthConfig → Option ℕ → Result ConfigError (Unit {0})
check_samples health none = ok tt
check_samples health (some n) =
    guard (leb 1 n && leb n 10) class_samples
    >> guard (leb (health_tick_budget_ms n health.timeout_ms) (tick_cap health)) class_budget

check_health : HealthConfig → Option ClassHealth → Result ConfigError (Unit {0})
unfolding check_url check_samples
check_health health none = ok tt
check_health health (some own) = check_url own.url >> check_samples health own.samples

check_class : HealthConfig → List ListenAddr → ClassConfig → Result ConfigError (Unit {0})
unfolding check_selection check_health is_loopback same_listen
check_class health seen class =
    guard (is_loopback class.listen.ip) not_loopback
    >> guard (not (any (same_listen class.listen) seen)) shared_listen
    >> check_selection class.selection
    >> check_health health class.health

check_classes : HealthConfig → List ListenAddr → Map ClassConfig → Result ConfigError (Unit {0})
unfolding check_class
check_classes health seen [] = ok tt
check_classes health seen ((name, class) ∷ classes) =
    check_class health seen class >> check_classes health (class.listen ∷ seen) classes

check_probe : ProbeConfig → HealthConfig → Result ConfigError (Unit {0})
check_probe probe health =
    guard (not (probe.interval_secs == 0 || health.interval_secs == 0)) zero_interval
    >> guard (leb probe.interval_secs max_interval_secs) probe_interval
    >> guard (leb health.interval_secs max_interval_secs) health_interval
    >> guard (not (probe.concurrency == 0)) zero_concurrency
    >> guard (leb probe.concurrency max_probe_concurrency) concurrency_limit
    >> guard (not (probe.timeout_ms == 0 || health.timeout_ms == 0)) zero_timeout
    >> guard (leb probe.timeout_ms max_timeout_ms) probe_timeout

check_global_health : HealthConfig → Result ConfigError (Unit {0})
check_global_health health =
    guard (leb health.timeout_ms max_timeout_ms) health_timeout
    >> guard (not (health.fail_threshold == 0)) zero_threshold
    >> guard (leb health.fail_threshold max_fail_threshold) threshold_limit
    >> guard (leb health.drain_grace_secs max_drain_grace_secs) drain_grace
    >> guard (leb 1 health.samples && leb health.samples 10) global_samples
    >> guard (leb (health_tick_budget_ms health.samples health.timeout_ms) (tick_cap health))
        global_budget

check_site_urls : Map Text → Result ConfigError (Unit {0})
unfolding valid_site_url
check_site_urls [] = ok tt
check_site_urls ((name, url) ∷ sites) = guard (valid_site_url url) site_url >> check_site_urls sites

check_sites : SitesConfig → Result ConfigError (Unit {0})
unfolding check_site_urls trim
check_sites sites =
    check_site_urls sites.list
    >> guard (not (sites.timeout_ms == 0)) zero_site_timeout
    >> guard (leb sites.timeout_ms max_timeout_ms) site_timeout
    >> guard (not (sites.max_candidates == 0)) zero_candidates
    >> guard (leb sites.max_candidates max_site_candidates) candidates_limit
    >> guard (leb sites.verdict_ttl_secs max_verdict_ttl_secs) verdict_ttl
    >> guard (not (is_empty (trim sites.user_agent))) user_agent

abbrev has_classes : Map ClassConfig → Bool
has_classes [] = false
has_classes (c ∷ cs) = true

of_hosts : Result HostError (Unit {0}) → Result ConfigError (Unit {0})
of_hosts (ok u) = ok tt
of_hosts (err e) = err (host_error e)

module _ (F : Float) where
  -- A comparison with `NaN` is false.
  check_selection_rates : SelectionConfig F.F64 → Result ConfigError (Unit {0})
  check_selection_rates s =
      guard (F.le F.f0 s.hysteresis && F.le s.hysteresis F.f1) hysteresis
      >> guard
          (F.le F.f0 s.ema_alpha
            && F.le s.ema_alpha F.f1
            && not (F.le s.ema_alpha F.f0 && F.le F.f0 s.ema_alpha))
          ema_alpha

  -- `paths` is what the checks of the paths and of the subscriptions return.
  unfoldable pub validate_at :
      (Text → Bool) → Result ConfigError (Unit {0}) → Config F.F64 → Result ConfigError (Unit {0})
  unfolding check_classes of_hosts check_probe check_global_health check_selection_rates
      valid_health_url check_sites
  validate_at is_ip paths cfg =
      guard (has_classes cfg.classes) no_classes
      >> check_classes cfg.health [] cfg.classes
      >> of_hosts (Hosts.validate is_ip cfg.direct_hosts)
      >> paths
      >> check_probe cfg.probe cfg.health
      >> check_global_health cfg.health
      >> check_selection_rates cfg.selection
      >> guard (valid_health_url cfg.health.url) health_url
      >> check_sites cfg.sites
