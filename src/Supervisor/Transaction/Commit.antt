-- ===== src/Supervisor/Transaction/Commit.antt =====
-- The transaction from the request to the reply (src/supervisor.rs, `prepare_subscription`,
-- `commit_prepared_cache` and `switch_subscription_locked`). The mutex of transactions is held.
pub mod Atomic
pub mod Whole
use causeway.Prelude.{
  ℕ, ◌+◌, ◌≡◌, Bool, true, false, not, ◌&&◌, Option, none, some, List, [], ◌∷◌, length, ltb,
  if◌then◌else◌,
}
use causeway.Prelude.Text.{Text, text_eq, is_text}
use causeway.Prelude.Map.{Map, get}
use causeway.Prelude.Int.{ℤ}
use causeway.Prelude.Result.{Result, ok, err}
use causeway.Score.{Float}
use causeway.State.{Stats, StateFile, nodes_for_subscription, source_is_trusted}
use causeway.State.Persist.{StateError, SaveOutcome}
use causeway.Subscription.{Node}
use causeway.Subscription.Cache.{Files, PreparedProfile, commit_cache_slot}
use causeway.Supervisor.Candidates.{Sorting}
use causeway.Supervisor.Activation.{ActiveNode, ClassRuntime}
use causeway.Supervisor.Transaction.Daemon.{
  Catalog, Daemon, Outside, Failure, unknown_profile, invalid_source_identity, timed_out,
  preparation_failed, node_limit, reload_aborted, cache_commit_failed, state_commit_failed, Reply,
  tick, subscription_failure,
}
use causeway.Supervisor.Transaction.Staging.{stop_staged, stage_all}
use causeway.Supervisor.Transaction.Publication.{zip, next_state, publish}

abbrev pub max_profile_nodes : ℕ
max_profile_nodes = 256

pub data Prepared : Type 0 where
  fresh : PreparedProfile → Prepared
  cached : List Node → Prepared

abbrev pub nodes_of : Prepared → List Node
nodes_of (fresh p) = p.nodes
nodes_of (cached nodes) = nodes

abbrev pub is_fresh : Prepared → Bool
is_fresh (fresh p) = true
is_fresh (cached nodes) = false

abbrev pub slot_of : Prepared → Option Text
slot_of (fresh p) = p.committed_slot
slot_of (cached nodes) = none

-- The request, and what was read for it before anything is awaited.
pub record Request : Type 0 where
  pub target : Text
  pub catalog : Catalog
  pub identity : Text
  pub allow_cached_fallback : Bool
  pub is_reload : Bool
  pub previous : Text
  pub previous_catalog : Catalog
  pub refreshed : Bool
  pub confirmed_slot : Option Text
  pub source_trusted : Bool

-- `source_identities()`: the identity of every profile, if each has one.
pub source_identities : Catalog → Option (Map Text)
source_identities [] = some []
source_identities ((profile, none) ∷ rest) = none
source_identities ((profile, some identity) ∷ rest) = elim (source_identities rest) [
  | none ↦ none
  | some identities ↦ some ((profile, identity) ∷ identities)
]

abbrev or_no_identities : Option (Map Text) → Map Text
or_no_identities none = []
or_no_identities (some identities) = identities

abbrev flatten : Option (Option Text) → Option Text
flatten none = none
flatten (some identity) = identity

snapshot_of : List Node → Option Prepared
snapshot_of [] = none
snapshot_of (n ∷ ns) = some (cached (n ∷ ns))

prepared_or : Option PreparedProfile → Bool → List Node → Option Prepared
unfolding snapshot_of
prepared_or (some p) allow nodes = some (fresh p)
prepared_or none true nodes = snapshot_of nodes
prepared_or none false nodes = none

module _ {F64 : Type 0} where
  prepare_subscription : Outside F64 → Daemon F64 → Request → Option Prepared
  unfolding prepared_or
  prepare_subscription out d q =
      prepared_or (out.prepare_profile d.clock q.target)
        (q.allow_cached_fallback && not q.refreshed && q.source_trusted)
        (out.load_snapshot d.clock q.target q.confirmed_slot)

  -- The write gate and the lock of each class, under the deadline.
  wait_all : Outside F64 → Daemon F64 → List ClassRuntime → Bool × Daemon F64
  wait_all out d [] = (out.late d.clock, tick d)
  wait_all out d (rt ∷ rts) = elim (out.late d.clock) [
    | true ↦ (true, tick d)
    | false ↦ wait_all out (tick d) rts
  ]

  commit_fresh :
      Daemon F64
      → Result (Unit {0}) (Option Text) × PreparedProfile × Files
      → Option Prepared × Daemon F64
  commit_fresh d (ok slot, p, files) = (some (fresh p), record d { files = files })
  commit_fresh d (err e, p, files) = (none, record d { files = files })

  pub commit_prepared_cache :
      Outside F64 → Daemon F64 → Prepared → Option Text → Option Prepared × Daemon F64
  unfolding commit_fresh
  commit_prepared_cache out d (cached nodes) confirmed_slot = (some (cached nodes), tick d)
  commit_prepared_cache out d (fresh p) confirmed_slot =
      commit_fresh (tick d)
        (commit_cache_slot p d.files (out.save_private_cache d.clock) confirmed_slot)

  abbrev give_up :
      Outside F64 → Daemon F64 → Request → List ActiveNode → Failure → Reply × Daemon F64
  give_up out d q staged failure = subscription_failure out (stop_staged d staged) q.target failure

  -- After `save_atomic`.
  saved_as :
      Outside F64
      → Daemon F64
      → Request
      → List ActiveNode
      → Prepared
      → StateFile F64
      → ℤ
      → Result StateError SaveOutcome
      → Reply × Daemon F64
  saved_as out d q staged prepared st now (err e) = give_up out d q staged state_commit_failed
  saved_as out d q staged prepared st now (ok outcome) = (
    ok (record {
      previous = q.previous;
      active = q.target;
      node_count = length (nodes_of prepared);
      refreshed = q.refreshed;
    }),
    publish out d q.target q.catalog (nodes_of prepared) q.refreshed (zip d.classes staged) st now,
  )

  pub commit_state :
      Outside F64
      → Daemon F64
      → Request
      → List ActiveNode
      → Prepared
      → Option (Map Text)
      → Reply × Daemon F64
  unfolding saved_as
  commit_state out d q staged prepared none = give_up out d q staged invalid_source_identity
  commit_state out d q staged prepared (some next_identities) =
      let now = out.now_unix d.clock in
      let st =
        next_state d.state (or_no_identities (source_identities q.previous_catalog)) next_identities
          q.target (is_fresh prepared) (slot_of prepared) (zip d.classes staged) now in
      saved_as out (tick d) q staged prepared st now (out.commit_outcome d.clock)

  after_cache :
      Outside F64 → Request → List ActiveNode → Option Prepared × Daemon F64 → Reply × Daemon F64
  unfolding commit_state
  after_cache out q staged (none, d) = give_up out d q staged cache_commit_failed
  after_cache out q staged (some prepared, d) =
      commit_state out d q staged prepared (source_identities q.catalog)

  after_staging :
      Outside F64
      → Request
      → Prepared
      → Result Failure (List ActiveNode) × List ActiveNode × Daemon F64
      → Reply × Daemon F64
  unfolding after_cache commit_prepared_cache
  after_staging out q prepared (err e, staged, d) = give_up out d q staged e
  after_staging out q prepared (ok staged, up, d) =
      if out.late d.clock
      then give_up out (tick d) q staged timed_out
      else after_cache out q staged (commit_prepared_cache out (tick d) prepared q.confirmed_slot)

module _ (F : Float) (sorting : Sorting Node) where
  stats_for : Daemon F.F64 → Request → Option (Stats F.F64)
  stats_for d q = if q.source_trusted then nodes_for_subscription d.state q.target else none

  gated : Outside F.F64 → Request → Prepared → Bool × Daemon F.F64 → Reply × Daemon F.F64
  unfolding stats_for after_staging
  gated out q prepared (true, d) = subscription_failure out d q.target timed_out
  gated out q prepared (false, d) =
      after_staging out q prepared
        (stage_all F sorting out d d.classes (nodes_of prepared) (stats_for d q) q.refreshed [])

  checked : Outside F.F64 → Daemon F.F64 → Request → Prepared → Reply × Daemon F.F64
  unfolding gated wait_all
  checked out d q prepared =
      if ltb max_profile_nodes (length (nodes_of prepared))
      then subscription_failure out d q.target node_limit
      else if q.is_reload && not (text_eq d.subscriptions.active q.previous)
      then (err reload_aborted, d)
      else gated out q prepared (wait_all out d d.classes)

  -- `Ok(prepared) if !prepared.nodes().is_empty() => prepared`
  nonempty : Outside F.F64 → Daemon F.F64 → Request → Prepared → List Node → Reply × Daemon F.F64
  unfolding checked
  nonempty out d q prepared [] = subscription_failure out d q.target preparation_failed
  nonempty out d q prepared (n ∷ ns) = checked out d q prepared

  with_prepared : Outside F.F64 → Daemon F.F64 → Request → Option Prepared → Reply × Daemon F.F64
  unfolding nonempty
  with_prepared out d q none = subscription_failure out d q.target preparation_failed
  with_prepared out d q (some prepared) = nonempty out d q prepared (nodes_of prepared)

  prepare : Outside F.F64 → Daemon F.F64 → Request → Reply × Daemon F.F64
  unfolding with_prepared prepare_subscription
  prepare out d q =
      if out.late d.clock
      then subscription_failure out (tick d) q.target timed_out
      else with_prepared out (tick d) q (prepare_subscription out d q)

  request : Daemon F.F64 → Text → Catalog → Text → Bool → Bool → Request
  request d target catalog identity allow_cached_fallback is_reload =
      let confirmed = get target d.state.subscription_cache_slots in
      record {
        target = target;
        catalog = catalog;
        identity = identity;
        allow_cached_fallback = allow_cached_fallback;
        is_reload = is_reload;
        previous = d.subscriptions.active;
        previous_catalog = d.subscriptions.catalog;
        refreshed = text_eq d.subscriptions.active target;
        confirmed_slot = confirmed;
        source_trusted =
            source_is_trusted d.state target identity
            && is_text (flatten (get target d.subscriptions.catalog)) identity;
      }

  switch_profile :
      Outside F.F64
      → Daemon F.F64
      → Text
      → Catalog
      → Bool
      → Bool
      → Option (Option Text)
      → Reply × Daemon F.F64
  unfolding prepare request
  switch_profile out d target catalog allow is_reload none = (err unknown_profile, d)
  switch_profile out d target catalog allow is_reload (some none) = (err invalid_source_identity, d)
  switch_profile out d target catalog allow is_reload (some (some identity)) =
      prepare out d (request d target catalog identity allow is_reload)

  pub switch_subscription_locked :
      Outside F.F64 → Daemon F.F64 → Text → Catalog → Bool → Bool → Reply × Daemon F.F64
  unfolding switch_profile
  switch_subscription_locked out d target catalog allow is_reload =
      switch_profile out d target catalog allow is_reload (get target catalog)

  -- The control request.
  pub switch_subscription : Outside F.F64 → Daemon F.F64 → Text → Reply × Daemon F.F64
  unfolding switch_subscription_locked
  switch_subscription out d target =
      switch_subscription_locked out d target d.subscriptions.catalog true false
