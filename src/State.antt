-- ===== src/State.antt =====
-- The persisted runtime state (src/state.rs): the record and its methods on subscription profiles.
pub mod Profile
pub mod Loops
pub mod Activate
pub mod Catalog
pub mod Startup
pub mod Persist
use causeway.Prelude.{
  ℕ, ◌≡◌, Bool, true, false, not, ◌&&◌, ◌||◌, Option, none, some, List, [], ◌∷◌, ◌++◌, ◌==◌,
  if◌then◌else◌, filterb, is_some,
}
use causeway.Prelude.Text.{Text, text_eq, is_text}
use causeway.Prelude.Map.{Map, get, insert, remove, contains_key, keys}
use causeway.Prelude.Int.{ℤ, pos}
use causeway.Score.{NodeStats}
use causeway.Siteprobe.{SiteVerdict}

abbrev pub state_version : ℕ
state_version = 2

abbrev pub legacy_state_version : ℕ
legacy_state_version = 1

pub record ClassState : Type 0 where
  pub active_node : Option Text
  pub socks_port : Option ℕ
  pub http_port : Option ℕ
  pub generation : ℕ

-- The statistics of one subscription, by node name.
abbrev pub Stats : Type 0 → Type 0
Stats F64 = Map (NodeStats F64)

pub record StateFile (F64 : Type 0) : Type 0 where
  pub version : ℕ
  pub updated_unix : ℤ
  pub active_subscription : Option Text
  pub classes : Map ClassState
  pub nodes : Stats F64
  pub subscription_cache_slots : Map Text
  pub subscription_source_identities : Map Text
  pub pending_subscription_sources : Map Text
  pub subscription_nodes : Map (Stats F64)
  pub site_verdicts : Map (Map SiteVerdict)

-- A loop of mutations, in order.
abbrev pub fold_left : {S A : Type 0} → (S → A → S) → S → List A → S
fold_left f s [] = s
fold_left f s (a ∷ as') = fold_left f (f s a) as'

-- `collect()` into a set: the keys in order, each once.
abbrev set_of : List Text → Map (Unit {0})
set_of [] = []
set_of (k ∷ ks) = insert k tt (set_of ks)

-- `stored.is_some_and(|s| s != identity)`
abbrev pub differs : Option Text → Text → Bool
differs none identity = false
differs (some s) identity = not (text_eq s identity)

module _ {F64 : Type 0} where
  abbrev pub default : StateFile F64
  default = record {
    version = state_version;
    updated_unix = pos 0;
    active_subscription = none;
    classes = [];
    nodes = [];
    subscription_cache_slots = [];
    subscription_source_identities = [];
    pending_subscription_sources = [];
    subscription_nodes = [];
    site_verdicts = [];
  }

  pub nodes_for_subscription : StateFile F64 → Text → Option (Stats F64)
  nodes_for_subscription st name =
      if is_text st.active_subscription name then some st.nodes else get name st.subscription_nodes

  pub remove_subscription : StateFile F64 → Text → StateFile F64
  remove_subscription st name =
      let is_active = is_text st.active_subscription name in
      record st {
        active_subscription = if is_active then none else st.active_subscription;
        nodes = if is_active then [] else st.nodes;
        subscription_nodes = remove name st.subscription_nodes;
        subscription_cache_slots = remove name st.subscription_cache_slots;
        subscription_source_identities = remove name st.subscription_source_identities;
        pending_subscription_sources = remove name st.pending_subscription_sources;
      }

  pub invalidate_subscription_source : StateFile F64 → Text → Text → StateFile F64
  invalidate_subscription_source st name identity =
      let is_active = is_text st.active_subscription name in
      record st {
        nodes = if is_active then [] else st.nodes;
        subscription_nodes =
            if is_active then st.subscription_nodes else remove name st.subscription_nodes;
        subscription_cache_slots = remove name st.subscription_cache_slots;
        subscription_source_identities = remove name st.subscription_source_identities;
        pending_subscription_sources = insert name identity st.pending_subscription_sources;
      }

  pub trust_subscription_source : StateFile F64 → Text → Text → StateFile F64
  trust_subscription_source st name identity = record st {
    pending_subscription_sources = remove name st.pending_subscription_sources;
    subscription_source_identities = insert name identity st.subscription_source_identities;
  }

  pub source_is_trusted : StateFile F64 → Text → Text → Bool
  source_is_trusted st name identity =
      is_text (get name st.subscription_source_identities) identity
      && not (contains_key name st.pending_subscription_sources)

  -- The names that any persisted map knows.
  pub persisted_names : StateFile F64 → List Text
  persisted_names st = keys (
      set_of (
        keys st.subscription_nodes
        ++ (keys st.subscription_cache_slots
            ++ (keys st.subscription_source_identities ++ keys st.pending_subscription_sources))))

  pub remove_absent : StateFile F64 → Map Text → StateFile F64
  unfolding persisted_names
  remove_absent st next =
      fold_left remove_subscription st
        (filterb (λ name. not (contains_key name next)) (persisted_names st))

  pub apply_entry : Map Text → Option Text → StateFile F64 → Text × Text → StateFile F64
  apply_entry previous freshly_trusted st (name, identity) =
      let catalog_changed = not (is_text (get name previous) identity) in
      let persisted_mismatch = differs (get name st.subscription_source_identities) identity in
      let pending_mismatch = differs (get name st.pending_subscription_sources) identity in
      let checked =
        if catalog_changed || persisted_mismatch || pending_mismatch
        then invalidate_subscription_source st name identity
        else st in
      if is_text freshly_trusted name
      then trust_subscription_source checked name identity
      else checked

  pub apply_subscription_catalog : StateFile F64 → Map Text → Map Text → Option Text → StateFile F64
  unfolding remove_absent apply_entry
  apply_subscription_catalog st previous next freshly_trusted =
      fold_left (apply_entry previous freshly_trusted) (remove_absent st next) next

  pub quarantine_entry : StateFile F64 → Text × Text → StateFile F64
  quarantine_entry st (name, identity) =
      if differs (get name st.subscription_source_identities) identity
        || differs (get name st.pending_subscription_sources) identity
      then invalidate_subscription_source st name identity
      else st

  adopt : StateFile F64 → Text → Text → Option Text → StateFile F64
  adopt st name identity none = trust_subscription_source st name identity
  adopt st name identity (some stored) =
      if text_eq stored identity then st else invalidate_subscription_source st name identity

  pub adopt_entry : StateFile F64 → Text × Text → StateFile F64
  unfolding adopt
  adopt_entry st (name, identity) =
      if contains_key name st.pending_subscription_sources
      then st
      else adopt st name identity (get name st.subscription_source_identities)

  pub reconcile_startup_sources : StateFile F64 → Map Text → StateFile F64
  unfolding remove_absent quarantine_entry adopt_entry
  reconcile_startup_sources st current =
      fold_left adopt_entry (fold_left quarantine_entry (remove_absent st current) current) current

  pub migrate_for_subscription : StateFile F64 → Text → StateFile F64 × Bool
  migrate_for_subscription st selected =
      if st.version == legacy_state_version
      then (record st { version = state_version; active_subscription = some selected }, true)
      else (st, false)

  stash : Option Text → Stats F64 → Map (Stats F64) → Map (Stats F64)
  stash none outgoing inactive = inactive
  stash (some previous) outgoing inactive = insert previous outgoing inactive

  -- `unwrap_or_default()`
  abbrev pub or_empty : Option (Stats F64) → Stats F64
  or_empty none = []
  or_empty (some s) = s

  pub activate_subscription : StateFile F64 → Text → StateFile F64 × Bool
  unfolding migrate_for_subscription stash
  activate_subscription st name =
      let (migrated, did_migrate) = migrate_for_subscription st name in
      let stashed = stash st.active_subscription st.nodes st.subscription_nodes in
      if did_migrate
      then (migrated, true)
      else if is_text st.active_subscription name
      then (st, false)
      else (
        record st {
          active_subscription = some name;
          nodes = or_empty (get name stashed);
          subscription_nodes = remove name stashed;
        },
        true,
      )
