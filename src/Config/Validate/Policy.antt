-- ===== src/Config/Validate/Policy.antt =====
-- What a validated configuration gives every class (src/config.rs).
use causeway.Prelude.{
  ℕ, zero, suc, ◌+◌, ◌*◌, ◌≤◌, ◌≡◌, refl, sym, ap, ◌∙◌, inl, inr, min, Bool, true, not, ◌&&◌,
  Option, none, some, List, [], ◌∷◌, any, leb, Bool-cases, arith,
}
use causeway.Prelude.Text.{Text, codes, text_eq}
use causeway.Prelude.Map.{Map, get}
use causeway.Prelude.Parse.{strip_prefix}
use causeway.Prelude.Result.{Result, ok, ◌>>◌, guard, guard-ok, then_first, then_last}
use causeway.Score.{Float}
use causeway.Health.Target.{is_empty, valid_target}
use causeway.Health.Target.Http.{valid_target-http}
use causeway.Config.{
  ListenAddr, ClassHealth, ClassConfig, HealthConfig, Config, or_inherit, own_url, own_samples,
  own_health, class_health_override, class_health_url, class_health_samples,
}
use causeway.Config.Hosts
use causeway.Config.Validate.{
  ConfigError, health_tick_budget_ms, tick_cap, valid_rest, valid_health_url, check_selection,
  check_url, check_samples, check_health, check_class, check_classes, check_probe,
  check_global_health, check_sites, has_classes, of_hosts, check_selection_rates, validate_at,
  is_loopback, same_listen, not_loopback, shared_listen, health_url, no_classes, empty_url,
  bad_target, class_samples, class_budget, u64_max,
}

-- The samples of one health tick and their time.
abbrev pub Affordable : HealthConfig → ℕ → Type 0
Affordable health n =
    (1 ≤ n)
    × (n ≤ 10)
    × (n * (health.timeout_ms + 1000) ≤ 60_000)
    × (n * (health.timeout_ms + 1000) ≤ health.interval_secs * 1000)

le_mul : (n x : ℕ) → 1 ≤ n → x ≤ n * x
le_mul zero x h = absurd (omega arith)
le_mul (suc n) x h = omega arith

affordable :
    (health : HealthConfig) (n : ℕ)
    → (leb 1 n && leb n 10) ≡ true
    → leb (health_tick_budget_ms n health.timeout_ms) (tick_cap health) ≡ true
    → Affordable health n
affordable health n h k =
    let lo : 1 ≤ n = ground arith in
    let hi : n ≤ 10 = ground arith in
    let x = min (health.timeout_ms + 1000) u64_max in
    let cap : min (n * x) u64_max ≤ tick_cap health = ground arith in
    let large : n * x ≤ tick_cap health = omega arith in
    let exact : x ≡ health.timeout_ms + 1000 = omega (arith, le_mul n x lo) in
    let product : n * x ≡ n * (health.timeout_ms + 1000) = ap (λ y. n * y) exact in
    (lo, hi, omega arith, omega arith)

valid_rest-target :
    (url : Text) (rest : Option Text)
    → strip_prefix (codes "http://") url ≡ rest
    → valid_rest url rest ≡ true
    → valid_target url ≡ true
unfolding valid_rest
valid_rest-target url none e h = absurd cc
valid_rest-target url (some rest) e h =
    valid_target-http url rest e (ground arith) (ground arith) (ground arith) (ground arith)

check_url-target : (url : Text) → check_url (some url) ≡ ok tt → valid_target url ≡ true
unfolding check_url
check_url-target url h =
    guard-ok (valid_target url) bad_target tt
      (then_last (guard (not (is_empty url)) empty_url) (guard (valid_target url) bad_target) tt h)

check_samples-Affordable :
    (health : HealthConfig) (n : ℕ) → check_samples health (some n) ≡ ok tt → Affordable health n
unfolding check_samples
check_samples-Affordable health n h =
    let range = guard (leb 1 n && leb n 10) class_samples in
    let cost =
      guard (leb (health_tick_budget_ms n health.timeout_ms) (tick_cap health)) class_budget in
    affordable health n (guard-ok _ class_samples tt (then_first range cost tt h))
      (guard-ok _ class_budget tt (then_last range cost tt h))

-- The health overrides that a class may have.
Overrides : HealthConfig → Option ClassHealth → Type 0
Overrides health own =
    ((url : Text) → own_url own ≡ some url → valid_target url ≡ true)
    × ((n : ℕ) → own_samples own ≡ some n → Affordable health n)

check_health-Overrides :
    (health : HealthConfig) (own : Option ClassHealth)
    → check_health health own ≡ ok tt
    → Overrides health own
unfolding check_health own_url own_samples Overrides
check_health-Overrides health none h = ((λ url e. absurd cc), (λ n e. absurd cc))
check_health-Overrides health (some own) h =
    let first = then_first (check_url own.url) (check_samples health own.samples) tt h in
    let last = then_last (check_url own.url) (check_samples health own.samples) tt h in
    (
      (λ url e. check_url-target url (ap check_url (sym e) ∙ first)),
      (λ n e. check_samples-Affordable health n (ap (check_samples health) (sym e) ∙ last)),
    )

abbrev before_health : List ListenAddr → ClassConfig → Result ConfigError (Unit {0})
before_health seen class =
    guard (is_loopback class.listen.ip) not_loopback
    >> guard (not (any (same_listen class.listen) seen)) shared_listen
    >> check_selection class.selection

check_classes-Overrides :
    (health : HealthConfig) (seen : List ListenAddr) (classes : Map ClassConfig) (class : Text)
    → check_classes health seen classes ≡ ok tt
    → Overrides health (own_health (get class classes))
unfolding check_classes check_class own_health get Overrides own_url own_samples
check_classes-Overrides health seen [] class h = ((λ url e. absurd cc), (λ n e. absurd cc))
check_classes-Overrides health seen ((name, c) ∷ classes) class h =
    let here =
      then_first (check_class health seen c) (check_classes health (c.listen ∷ seen) classes) tt
        h in
    let rest =
      then_last (check_class health seen c) (check_classes health (c.listen ∷ seen) classes) tt h in
    elim (Bool-cases (text_eq name class)) [
      | inl e ↦ rw e (
          check_health-Overrides health c.health
            (then_last (before_health seen c) (check_health health c.health) tt here))
      | inr e ↦ rw e (check_classes-Overrides health (c.listen ∷ seen) classes class rest)
    ]

effective :
    (health : HealthConfig) (own : Option ClassHealth)
    → valid_target health.url ≡ true
    → Affordable health health.samples
    → Overrides health own
    → (valid_target (or_inherit (own_url own) health.url) ≡ true)
      × Affordable health (or_inherit (own_samples own) health.samples)
unfolding Overrides
effective health own t a (f, g) = (target (own_url own) refl, samples (own_samples own) refl)
  where
    target : (o : Option Text) → own_url own ≡ o → valid_target (or_inherit o health.url) ≡ true
    target none e = t
    target (some url) e = f url e

    samples : (o : Option ℕ) → own_samples own ≡ o → Affordable health (or_inherit o health.samples)
    samples none e = a
    samples (some n) e = g n e

global-Affordable :
    (health : HealthConfig) → check_global_health health ≡ ok tt → Affordable health health.samples
unfolding check_global_health
global-Affordable health h = affordable health health.samples (ground arith) (ground arith)

module _ (F : Float) where
  -- What the rules that bear on health checks have found.
  validated :
      (is_ip : Text → Bool) (paths : Result ConfigError (Unit {0})) (cfg : Config F.F64)
      → validate_at F is_ip paths cfg ≡ ok tt
      → (check_classes cfg.health [] cfg.classes ≡ ok tt)
        × (check_global_health cfg.health ≡ ok tt)
        × (valid_health_url cfg.health.url ≡ true)
  unfolding validate_at
  validated is_ip paths cfg h =
      let some_class = guard (has_classes cfg.classes) no_classes in
      let classes = check_classes cfg.health [] cfg.classes in
      let hosts = of_hosts (Hosts.validate is_ip cfg.direct_hosts) in
      let probe = check_probe cfg.probe cfg.health in
      let health = check_global_health cfg.health in
      let rates = check_selection_rates F cfg.selection in
      let url = guard (valid_health_url cfg.health.url) health_url in
      let to_classes = some_class >> classes in
      let to_probe = to_classes >> hosts >> paths >> probe in
      let to_rates = to_probe >> health >> rates in
      let a = then_first (to_rates >> url) (check_sites cfg.sites) tt h in
      let b = then_first (to_probe >> health) rates tt (then_first to_rates url tt a) in
      let c = then_first to_probe health tt b in
      let d =
        then_first (to_classes >> hosts) paths tt
          (then_first (to_classes >> hosts >> paths) probe tt c) in
      (
        then_last some_class classes tt (then_first to_classes hosts tt d),
        then_last to_probe health tt b,
        guard-ok (valid_health_url cfg.health.url) health_url tt (then_last to_rates url tt a),
      )

  -- In a configuration that passes the validation, each class, configured or not, has a target of
  -- its health checks that is valid, and between 1 and 10 samples whose time at the worst, with no
  -- overflow, is at most a minute and at most the interval of the checks.
  pub validate_at-Affordable :
      (is_ip : Text → Bool) (paths : Result ConfigError (Unit {0})) (cfg : Config F.F64)
      (class : Text)
      → validate_at F is_ip paths cfg ≡ ok tt
      → (valid_target (class_health_url cfg class) ≡ true)
        × Affordable cfg.health (class_health_samples cfg class)
  unfolding class_health_url class_health_override class_health_samples valid_health_url
  validate_at-Affordable is_ip paths cfg class h =
      let v = validated is_ip paths cfg h in
      effective cfg.health (own_health (get class cfg.classes))
        (valid_rest-target cfg.health.url _ refl v.2) (global-Affordable cfg.health v.1)
        (check_classes-Overrides cfg.health [] cfg.classes class v.0)
