-- ===== src/Tests/Sources.antt =====
-- The theorems on subscription sources at a concrete state.
use causeway.Prelude.{◌≡◌, refl, false, not, ◌&&◌, ◌||◌, none, some, [], ◌∷◌, if◌then◌else◌, arith}
use causeway.Prelude.Text.{Text, codes, is_text, text_cmp}
use causeway.Prelude.Map.{Map, get, contains_key}
use causeway.Prelude.Int.{ℤ, pos}
use causeway.State.{
  StateFile, state_version, differs, or_empty, nodes_for_subscription, source_is_trusted,
  apply_subscription_catalog, reconcile_startup_sources,
}
use causeway.State.Profile.{view, blank}
use causeway.State.Loops.{Distinct, known, at_entry}
use causeway.State.Catalog.{
  applied, apply_subscription_catalog_profile, source_is_trusted-apply_subscription_catalog,
  apply_subscription_catalog_isolates,
}
use causeway.State.Startup.{source_is_trusted-reconcile_startup_sources}
use causeway.State.Activate.{IsSingle}

abbrev pub home : Text
home = codes "home"

abbrev pub work : Text
work = codes "work"

-- `home` is active and trusted; `work` is inactive and trusted.
abbrev pub stored : StateFile ℤ
stored = record {
  version = state_version;
  updated_unix = pos 5;
  active_subscription = some home;
  classes = [];
  nodes = [];
  subscription_cache_slots = (work, codes "a") ∷ [];
  subscription_source_identities = (home, codes "h1") ∷ (work, codes "w1") ∷ [];
  pending_subscription_sources = [];
  subscription_nodes = (work, []) ∷ [];
  site_verdicts = [];
}

pub stored-IsSingle : IsSingle stored
unfolding get text_cmp
stored-IsSingle name e = ground arith

abbrev catalog : Map Text
catalog = (home, codes "h1") ∷ (work, codes "w1") ∷ []

-- The source of `work` has changed.
abbrev changed : Map Text
changed = (home, codes "h1") ∷ (work, codes "w2") ∷ []

catalog-Distinct : Distinct catalog
unfolding get text_cmp
catalog-Distinct = (refl, (refl, tt))

changed-Distinct : Distinct changed
unfolding get text_cmp
changed-Distinct = (refl, (refl, tt))

get-catalog : get work catalog ≡ some (codes "w1")
unfolding get text_cmp
get-catalog = refl

get-changed : get work changed ≡ some (codes "w2")
unfolding get text_cmp
get-changed = refl

work_changed : is_text (get work catalog) (codes "w2") ≡ false
unfolding get text_cmp
work_changed = refl

apply_subscription_catalog_profile_example :
    view (apply_subscription_catalog stored catalog changed (some work)) work
    ≡ at_entry
        (applied catalog (some work))
        work
        (get work changed)
        (if known stored work && not (contains_key work changed) then blank else view stored work)
apply_subscription_catalog_profile_example =
    apply_subscription_catalog_profile stored catalog changed (some work) work changed-Distinct

source_is_trusted-apply_subscription_catalog_example :
    source_is_trusted
      (apply_subscription_catalog stored catalog changed (some work))
      work
      (codes "w2")
    ≡ is_text (some work) work
      || source_is_trusted stored work (codes "w2") && is_text (get work catalog) (codes "w2")
source_is_trusted-apply_subscription_catalog_example =
    source_is_trusted-apply_subscription_catalog stored catalog changed (some work) work
      (codes "w2") changed-Distinct get-changed

apply_subscription_catalog_isolates_example :
    let after = apply_subscription_catalog stored catalog changed none in
    (source_is_trusted after work (codes "w2") ≡ false)
    × (get work after.subscription_cache_slots ≡ none)
    × (get work after.pending_subscription_sources ≡ some (codes "w2"))
    × (or_empty (nodes_for_subscription after work) ≡ [])
apply_subscription_catalog_isolates_example =
    apply_subscription_catalog_isolates stored catalog changed none work (codes "w2")
      changed-Distinct get-changed work_changed refl

source_is_trusted-reconcile_startup_sources_example :
    source_is_trusted (reconcile_startup_sources stored catalog) work (codes "w1")
    ≡ not (contains_key work stored.pending_subscription_sources)
      && not (differs (get work stored.subscription_source_identities) (codes "w1"))
source_is_trusted-reconcile_startup_sources_example =
    source_is_trusted-reconcile_startup_sources stored catalog work (codes "w1") catalog-Distinct
      get-catalog
