-- ===== src/State/Profile.antt =====
-- One profile's share of the state of src/state.rs, and what each method does to it: every method
-- acts on the profile that it names and leaves the others as they are.
use causeway.Prelude.{◌≡◌, Bool, false, Option, none, some, [], if◌then◌else◌, arith}
use causeway.Prelude.Text.{Text, text_eq, text_eq_iff, is_text, is_text_iff}
use causeway.Prelude.Map.{get, get-insert, get-remove}
use causeway.State.{
  Stats, StateFile, nodes_for_subscription, remove_subscription, invalidate_subscription_source,
  trust_subscription_source,
}

-- What the state holds for one profile name. `live` says that it is the active one.
pub record Profile (F64 : Type 0) : Type 0 where
  pub live : Bool
  pub stats : Option (Stats F64)
  pub slot : Option Text
  pub identity : Option Text
  pub pending : Option Text

module _ {F64 : Type 0} where
  abbrev pub view : StateFile F64 → Text → Profile F64
  view st name = record {
    live = is_text st.active_subscription name;
    stats = nodes_for_subscription st name;
    slot = get name st.subscription_cache_slots;
    identity = get name st.subscription_source_identities;
    pending = get name st.pending_subscription_sources;
  }

  abbrev pub blank : Profile F64
  blank = record { live = false; stats = none; slot = none; identity = none; pending = none }

  abbrev pub invalidated : Profile F64 → Text → Profile F64
  invalidated p identity = record {
    live = p.live;
    stats = if p.live then some [] else none;
    slot = none;
    identity = none;
    pending = some identity;
  }

  abbrev pub trusted : Profile F64 → Text → Profile F64
  trusted p identity = record p { identity = some identity; pending = none }

  pub view-remove :
      (st : StateFile F64) (name other : Text)
      → view (remove_subscription st name) other
        ≡ (if text_eq name other then blank else view st other)
  unfolding remove_subscription nodes_for_subscription
  view-remove st name other = ground (
    arith,
    text_eq_iff name other,
    is_text_iff st.active_subscription name,
    is_text_iff st.active_subscription other,
    get-remove name other st.subscription_nodes,
    get-remove name other st.subscription_cache_slots,
    get-remove name other st.subscription_source_identities,
    get-remove name other st.pending_subscription_sources,
  )

  pub view-invalidate :
      (st : StateFile F64) (name identity other : Text)
      → view (invalidate_subscription_source st name identity) other
        ≡ (if text_eq name other then invalidated (view st other) identity else view st other)
  unfolding invalidate_subscription_source nodes_for_subscription
  view-invalidate st name identity other = ground (
    arith,
    text_eq_iff name other,
    is_text_iff st.active_subscription name,
    is_text_iff st.active_subscription other,
    get-remove name other st.subscription_nodes,
    get-remove name other st.subscription_cache_slots,
    get-remove name other st.subscription_source_identities,
    get-insert name other identity st.pending_subscription_sources,
  )

  pub view-trust :
      (st : StateFile F64) (name identity other : Text)
      → view (trust_subscription_source st name identity) other
        ≡ (if text_eq name other then trusted (view st other) identity else view st other)
  unfolding trust_subscription_source nodes_for_subscription
  view-trust st name identity other = ground (
    arith,
    text_eq_iff name other,
    get-remove name other st.pending_subscription_sources,
    get-insert name other identity st.subscription_source_identities,
  )
