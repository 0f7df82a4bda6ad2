-- ===== src/Config.antt =====
-- The configuration (src/config.rs): its sections, and what applies to one class.
pub mod Hosts
pub mod Validate
use causeway.Prelude.{ℕ, Bool, Option, none, some, List, [], ◌∷◌}
use causeway.Prelude.Text.{Text}
use causeway.Prelude.Map.{Map, get}

-- The address and the port of a listener.
pub data IpAddr : Type 0 where
  v4 v6 : ℕ → IpAddr

pub record ListenAddr : Type 0 where
  pub ip : IpAddr
  pub port : ℕ

pub record ClassSelection : Type 0 where
  pub regions : Option (List Text)
  pub auto_switch : Option Bool

pub record ClassHealth : Type 0 where
  pub url : Option Text
  pub samples : Option ℕ

pub record ClassConfig : Type 0 where
  pub listen : ListenAddr
  pub selection : Option ClassSelection
  pub health : Option ClassHealth

pub record ProbeConfig : Type 0 where
  pub interval_secs : ℕ
  pub timeout_ms : ℕ
  pub concurrency : ℕ

pub record HealthConfig : Type 0 where
  pub interval_secs : ℕ
  pub timeout_ms : ℕ
  pub fail_threshold : ℕ
  pub url : Text
  pub samples : ℕ
  pub drain_grace_secs : ℕ

pub record SitesConfig : Type 0 where
  pub timeout_ms : ℕ
  pub max_candidates : ℕ
  pub verdict_ttl_secs : ℕ
  pub user_agent : Text
  pub list : Map Text

pub record SelectionConfig (F64 : Type 0) : Type 0 where
  pub hysteresis : F64
  pub ema_alpha : F64
  pub regions : List Text
  pub auto_switch : Bool

pub record Config (F64 : Type 0) : Type 0 where
  pub classes : Map ClassConfig
  pub direct_hosts : List Text
  pub probe : ProbeConfig
  pub health : HealthConfig
  pub sites : SitesConfig
  pub selection : SelectionConfig F64

abbrev or_inherit : {A : Type 0} → Option A → A → A
or_inherit none a = a
or_inherit (some own) a = own

own_regions : Option ClassConfig → Option (List Text)
own_regions none = none
own_regions (some c) = elim c.selection [ none ↦ none | some s ↦ s.regions ]

own_auto_switch : Option ClassConfig → Option Bool
own_auto_switch none = none
own_auto_switch (some c) = elim c.selection [ none ↦ none | some s ↦ s.auto_switch ]

own_url : Option ClassHealth → Option Text
own_url none = none
own_url (some h) = h.url

own_samples : Option ClassHealth → Option ℕ
own_samples none = none
own_samples (some h) = h.samples

own_health : Option ClassConfig → Option ClassHealth
own_health none = none
own_health (some c) = c.health

module _ {F64 : Type 0} where
  pub class_regions : Config F64 → Text → List Text
  unfolding own_regions get
  class_regions cfg class = or_inherit (own_regions (get class cfg.classes)) cfg.selection.regions

  pub class_auto_switch : Config F64 → Text → Bool
  unfolding own_auto_switch get
  class_auto_switch cfg class =
      or_inherit (own_auto_switch (get class cfg.classes)) cfg.selection.auto_switch

  pub class_health_override : Config F64 → Text → Option Text
  unfolding own_url own_health get
  class_health_override cfg class = own_url (own_health (get class cfg.classes))

  pub class_health_url : Config F64 → Text → Text
  unfolding class_health_override
  class_health_url cfg class = or_inherit (class_health_override cfg class) cfg.health.url

  pub class_health_samples : Config F64 → Text → ℕ
  unfolding own_samples own_health get
  class_health_samples cfg class =
      or_inherit (own_samples (own_health (get class cfg.classes))) cfg.health.samples
