-- ===== src/State/Persist.antt =====
-- Loading and atomic saving of the state file (src/state.rs). The JSON codec and the outcome of each
-- file-system call are arguments.
pub mod Roundtrip
pub mod Atomic
use causeway.Prelude.{
  ℕ, ◌≡◌, Bool, true, false, not, ◌&&◌, ◌||◌, Option, none, some, List, [], ◌∷◌, ◌==◌,
  if◌then◌else◌, find, is_some,
}
use causeway.Prelude.Text.{Text, codes, text_eq}
use causeway.Prelude.Map.{Map, get, insert, remove}
use causeway.Prelude.Int.{ℤ}
use causeway.Prelude.Result.{Result, ok, err, ◌>>=◌, ◌>>◌, guard, ok_or}
use causeway.Siteprobe.{SiteVerdict}
use causeway.State.{ClassState, Stats, StateFile, state_version, legacy_state_version}

abbrev pub cache_slot_a : Text
cache_slot_a = codes "a"

abbrev pub cache_slot_b : Text
cache_slot_b = codes "b"

pub record StateFileV1 (F64 : Type 0) : Type 0 where
  pub version : ℕ
  pub updated_unix : ℤ
  pub classes : Map ClassState
  pub nodes : Stats F64

pub record StateFileV2 (F64 : Type 0) : Type 0 where
  pub version : ℕ
  pub updated_unix : ℤ
  pub active_subscription : Option Text
  pub classes : Map ClassState
  pub subscription_nodes : Map (Stats F64)
  pub site_verdicts : Map (Map SiteVerdict)
  pub subscription_cache_slots : Map Text
  pub subscription_source_identities : Map Text
  pub pending_subscription_sources : Map Text

-- `serde_json` at the wire types: `VersionOnly`, `StateFileV1` and `StateFileV2`.
pub record Json (F64 : Type 0) : Type 0 where
  pub version_only : Text → Option ℕ
  pub read_v1 : Text → Option (StateFileV1 F64)
  pub read_v2 : Text → Option (StateFileV2 F64)
  pub write_v2 : StateFileV2 F64 → Text

-- The paths that the messages carry are left out.
pub data StateError : Type 0 where
  io : StateError
  json : StateError
  unsupported_version : ℕ → StateError
  needs_migration : StateError
  unbound_nodes : StateError
  missing_active_subscription : Text → StateError
  invalid_subscription_cache_slot : Text → Text → StateError

pub data SaveOutcome : Type 0 where
  durable committed_not_durable : SaveOutcome

pub data ReadOutcome : Type 0 where
  contents : Text → ReadOutcome
  not_found : ReadOutcome
  unreadable : ReadOutcome

abbrev pub bad_slot : Text × Text → Bool
bad_slot (profile, slot) = not (text_eq slot cache_slot_a) && not (text_eq slot cache_slot_b)

-- How the calls of one save end: `true` is success. A failed write leaves `written` behind.
pub record Calls : Type 0 where
  pub create_dir_all : Bool
  pub open_tmp : Bool
  pub set_permissions : Bool
  pub write_all : Bool
  pub written : Text
  pub sync_all : Bool
  pub rename : Bool
  pub sync_parent : Bool

-- The two paths that a save touches.
pub record Disk : Type 0 where
  pub target : Option Text
  pub tmp : Option Text

check_slots : Option (Text × Text) → Result StateError (Unit {0})
check_slots none = ok tt
check_slots (some (profile, slot)) = err (invalid_subscription_cache_slot profile slot)

module _ {F64 : Type 0} where
  bind_unowned : Stats F64 → Map (Stats F64) → Result StateError (Map (Stats F64))
  bind_unowned [] all = ok all
  bind_unowned (s ∷ ss) all = err unbound_nodes

  bind_active : Option Text → Stats F64 → Map (Stats F64) → Result StateError (Map (Stats F64))
  unfolding bind_unowned
  bind_active (some active) nodes all = ok (insert active nodes all)
  bind_active none nodes all = bind_unowned nodes all

  pub persisted_subscription_nodes : StateFile F64 → Result StateError (Map (Stats F64))
  unfolding bind_active
  persisted_subscription_nodes st = do
    guard (st.version == state_version) needs_migration
    bind_active st.active_subscription st.nodes st.subscription_nodes

  pub from_v1 : StateFileV1 F64 → StateFile F64
  from_v1 old = record {
    version = old.version;
    updated_unix = old.updated_unix;
    active_subscription = none;
    classes = old.classes;
    nodes = old.nodes;
    subscription_cache_slots = [];
    subscription_source_identities = [];
    pending_subscription_sources = [];
    subscription_nodes = [];
    site_verdicts = [];
  }

  -- The statistics that become `nodes`, and the map that is left.
  take_active : Option Text → Map (Stats F64) → Result StateError (Stats F64 × Map (Stats F64))
  take_active none all = ok ([], all)
  take_active (some active) all = do
    nodes ← ok_or (get active all) (missing_active_subscription active)
    ok (nodes, remove active all)

  pub from_v2 : StateFileV2 F64 → Result StateError (StateFile F64)
  unfolding check_slots take_active
  from_v2 wire = do
    check_slots (find bad_slot wire.subscription_cache_slots)
    taken ← take_active wire.active_subscription wire.subscription_nodes
    ok (record {
      version = wire.version;
      updated_unix = wire.updated_unix;
      active_subscription = wire.active_subscription;
      classes = wire.classes;
      nodes = taken.0;
      subscription_cache_slots = wire.subscription_cache_slots;
      subscription_source_identities = wire.subscription_source_identities;
      pending_subscription_sources = wire.pending_subscription_sources;
      subscription_nodes = taken.1;
      site_verdicts = wire.site_verdicts;
    })

  pub to_v2 : StateFile F64 → Map (Stats F64) → StateFileV2 F64
  to_v2 st all = record {
    version = state_version;
    updated_unix = st.updated_unix;
    active_subscription = st.active_subscription;
    classes = st.classes;
    subscription_nodes = all;
    site_verdicts = st.site_verdicts;
    subscription_cache_slots = st.subscription_cache_slots;
    subscription_source_identities = st.subscription_source_identities;
    pending_subscription_sources = st.pending_subscription_sources;
  }

module _ {F64 : Type 0} (j : Json F64) where
  load_version : Text → ℕ → Result StateError (StateFile F64)
  unfolding from_v1 from_v2
  load_version text version =
      if version == legacy_state_version
      then (ok_or (j.read_v1 text) json >>= λ old. ok (from_v1 old))
      else if version == state_version
      then (ok_or (j.read_v2 text) json >>= λ wire. from_v2 wire)
      else err (unsupported_version version)

  -- `ok none` is a first run.
  pub load : ReadOutcome → Result StateError (Option (StateFile F64))
  unfolding load_version
  load not_found = ok none
  load unreadable = err io
  load (contents text) = do
    version ← ok_or (j.version_only text) json
    state ← load_version text version
    ok (some state)

  -- The calls after the temporary file was opened, on what stands there.
  commit : Calls → Disk → Text → Result StateError SaveOutcome × Disk
  commit c disk text =
      let opened = record disk { tmp = some [] } in
      let torn = record disk { tmp = some c.written } in
      let full = record disk { tmp = some text } in
      let renamed : Disk = record { target = some text; tmp = none } in
      if not c.set_permissions
      then (err io, opened)
      else if not c.write_all
      then (err io, torn)
      else if not c.sync_all || not c.rename
      then (err io, full)
      else (ok (if c.sync_parent then durable else committed_not_durable), renamed)

  write_wire :
      Calls
      → Disk
      → StateFile F64
      → Result StateError (Map (Stats F64))
      → Result StateError SaveOutcome × Disk
  unfolding commit to_v2
  write_wire c disk st (err e) = (err e, disk)
  write_wire c disk st (ok all) =
      if c.open_tmp then commit c disk (j.write_v2 (to_v2 st all)) else (err io, disk)

  unfoldable pub save_atomic : Calls → Disk → StateFile F64 → Result StateError SaveOutcome × Disk
  unfolding write_wire persisted_subscription_nodes
  save_atomic c disk st =
      if c.create_dir_all
      then write_wire c disk st (persisted_subscription_nodes st)
      else (err io, disk)
