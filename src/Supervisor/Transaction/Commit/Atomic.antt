-- ===== src/Supervisor/Transaction/Commit/Atomic.antt =====
-- The change of the subscription happens for every class or for none (src/supervisor.rs,
-- `switch_subscription_locked`).
use causeway.Prelude.{
  ◌≡◌, refl, sym, ◌∙◌, ap, Bool, true, false, Option, none, some, List, [], length, all,
}
use causeway.Prelude.Text.{Text}
use causeway.Prelude.Map.{Map}
use causeway.Prelude.Int.{ℤ}
use causeway.Prelude.Result.{Result, ok, err}
use causeway.Listener.Traffic.{select_subscription-subscription}
use causeway.State.{StateFile}
use causeway.State.Persist.{StateError, SaveOutcome}
use causeway.Subscription.{Node, name}
use causeway.Subscription.Cache.{PreparedProfile, Files, commit_cache_slot}
use causeway.Subscription.Cache.Slots.{commit_cache_slot-nodes}
use causeway.Supervisor.Candidates.Profile.{offers}
use causeway.Supervisor.Activation.{ActiveNode}
use causeway.Supervisor.Transaction.Daemon.{
  Daemon, Outside, Failure, Reply, SubscriptionSwitchOutcome, tick, subscription_failure,
}
use causeway.Supervisor.Transaction.Staging.{stop_staged}
use causeway.Supervisor.Transaction.Staging.Staged.{
  Unseen, Unseen-refl, Unseen-trans, Balanced, stop_staged-Unseen, stop_staged-Balanced,
}
use causeway.Supervisor.Transaction.Publication.{zip, publish, resave}
use causeway.Supervisor.Transaction.Publication.Published.{
  AllServe, publish_class-AllServe, length-published, ports-active, next_state-active,
}
use causeway.Supervisor.Transaction.Commit.{
  Prepared, nodes_of, Request, saved_as, commit_state, commit_fresh, commit_prepared_cache, fresh,
  cached,
}

abbrev of_prepared : Option Prepared → List Node
of_prepared none = []
of_prepared (some p) = nodes_of p

module _ {F64 : Type 0} where
  -- The daemon after a change of the subscription that was `c` before it.
  pub record Taken (c d : Daemon F64) (target : Text) (o : SubscriptionSwitchOutcome) : Type 0 where
    pub replied :
        (o.previous ≡ c.subscriptions.active)
        × (o.active ≡ target)
        × (o.node_count ≡ length d.subscriptions.nodes)
    pub selected : d.subscriptions.active ≡ target
    pub served : AllServe target d.subscriptions.nodes d.classes
    pub everyone : length d.classes ≡ length c.classes
    pub recorded : d.state.active_subscription ≡ some target
    pub durable :
        (st : StateFile F64) × (d.committed ≡ some st) × (st.active_subscription ≡ some target)
    pub charged : d.traffic.subscription ≡ some target
    pub started :
        (staged : List ActiveNode) × (length staged ≡ length c.classes) × Balanced c d staged

  -- All or nothing.
  abbrev pub Atomically : Daemon F64 → Text → Reply × Daemon F64 → Type 0
  Atomically c target (err failure, d) = Unseen c d × Balanced c d []
  Atomically c target (ok o, d) = Taken c d target o

  pub subscription_failure-Atomically :
      (out : Outside F64) (c d : Daemon F64) (target profile : Text) (failure : Failure)
      → Unseen c d
      → Balanced c d []
      → Atomically c target (subscription_failure out d profile failure)
  unfolding subscription_failure
  subscription_failure-Atomically out c d target profile failure h b = (
    record {
      draining_kept = h.draining_kept;
      state_kept = h.state_kept;
      committed_kept = h.committed_kept;
      classes_kept = h.classes_kept;
      subscriptions_kept = h.subscriptions_kept;
      traffic_kept = h.traffic_kept;
    },
    b,
  )

  pub give_up-Atomically :
      (out : Outside F64) (c d : Daemon F64) (target profile : Text) (failure : Failure)
      (staged : List ActiveNode)
      → Unseen c d
      → Balanced c d staged
      → Atomically c target (subscription_failure out (stop_staged d staged) profile failure)
  give_up-Atomically out c d target profile failure staged h b =
      subscription_failure-Atomically out c (stop_staged d staged) target profile failure
        (Unseen-trans h (stop_staged-Unseen staged d)) (stop_staged-Balanced staged c d b)

  resave-active :
      (saved : Bool) (live st : StateFile F64) (target : Text)
      → live.active_subscription ≡ some target
      → st.active_subscription ≡ some target
      → (last : StateFile F64) × (resave saved live (some st) ≡ some last)
        × (last.active_subscription ≡ some target)
  unfolding resave
  resave-active true live st target h k = (live, refl, h)
  resave-active false live st target h k = (st, refl, k)

  saved_as-Atomically :
      (out : Outside F64) (c d : Daemon F64) (q : Request) (staged : List ActiveNode)
      (prepared : Prepared) (st : StateFile F64) (now : ℤ) (r : Result StateError SaveOutcome)
      → q.previous ≡ c.subscriptions.active
      → Unseen c d
      → Balanced c d staged
      → length staged ≡ length c.classes
      → all (λ a. offers (name a.node) (nodes_of prepared)) staged ≡ true
      → st.active_subscription ≡ some q.target
      → Atomically c q.target (saved_as out d q staged prepared st now r)
  unfolding saved_as publish
  saved_as-Atomically out c d q staged prepared st now (err e) p h b n o s =
      give_up-Atomically out c d q.target q.target _ staged h b
  saved_as-Atomically out c d q staged prepared st now (ok outcome) p h b n o s =
      let live = ports-active (zip d.classes staged) st ∙ s in
      record {
        replied = (p, refl, refl);
        selected = refl;
        served = publish_class-AllServe q.target (nodes_of prepared) d.classes staged o;
        everyone =
            length-published q.target d.classes staged (n ∙ ap length (sym h.classes_kept))
            ∙ ap length h.classes_kept;
        recorded = live;
        durable = resave-active (out.save_state d.clock) _ st q.target live s;
        charged = select_subscription-subscription d.traffic q.target;
        started = (staged, n, b);
      }

  pub tick-Unseen : (c d : Daemon F64) → Unseen c d → Unseen c (tick d)
  tick-Unseen c d h = record {
    draining_kept = h.draining_kept;
    state_kept = h.state_kept;
    committed_kept = h.committed_kept;
    classes_kept = h.classes_kept;
    subscriptions_kept = h.subscriptions_kept;
    traffic_kept = h.traffic_kept;
  }

  pub commit_state-Atomically :
      (out : Outside F64) (c d : Daemon F64) (q : Request) (staged : List ActiveNode)
      (prepared : Prepared) (next : Option (Map Text))
      → q.previous ≡ c.subscriptions.active
      → Unseen c d
      → Balanced c d staged
      → length staged ≡ length c.classes
      → all (λ a. offers (name a.node) (nodes_of prepared)) staged ≡ true
      → Atomically c q.target (commit_state out d q staged prepared next)
  unfolding commit_state
  commit_state-Atomically out c d q staged prepared none p h b n o =
      give_up-Atomically out c d q.target q.target _ staged h b
  commit_state-Atomically out c d q staged prepared (some next) p h b n o =
      saved_as-Atomically out c (tick d) q staged prepared _ _ (out.commit_outcome d.clock) p
        (tick-Unseen c d h) b n o (next_state-active d.state _ next q.target _ _ _ _)

  -- The commit of the cache keeps the nodes, and only writes a cache file.
  abbrev pub Committed : Daemon F64 → Prepared → Option Prepared × Daemon F64 → Type 0
  Committed d prepared (r, d') =
      Unseen d d'
      × (d'.running ≡ d.running)
      × ((p : Prepared) → r ≡ some p → nodes_of p ≡ nodes_of prepared)

  with_files : (d : Daemon F64) (files : Files) → Unseen d (record (tick d) { files = files })
  with_files d files = record {
    draining_kept = refl;
    state_kept = refl;
    committed_kept = refl;
    classes_kept = refl;
    subscriptions_kept = refl;
    traffic_kept = refl;
  }

  commit_fresh-Committed :
      (d : Daemon F64) (p : PreparedProfile)
      (o : Result (Unit {0}) (Option Text) × PreparedProfile × Files)
      → o.1.nodes ≡ p.nodes
      → Committed d (fresh p) (commit_fresh (tick d) o)
  unfolding commit_fresh
  commit_fresh-Committed d p (ok slot, q, files) h =
      (with_files d files, refl, (λ r e. ap of_prepared (sym e) ∙ h))
  commit_fresh-Committed d p (err e, q, files) h = (with_files d files, refl, (λ r e'. absurd cc))

  pub commit_prepared_cache-Committed :
      (out : Outside F64) (d : Daemon F64) (prepared : Prepared) (slot : Option Text)
      → Committed d prepared (commit_prepared_cache out d prepared slot)
  unfolding commit_prepared_cache
  commit_prepared_cache-Committed out d (cached nodes) slot =
      (tick-Unseen d d (Unseen-refl d), refl, (λ p e. ap of_prepared (sym e)))
  commit_prepared_cache-Committed out d (fresh p) slot =
      commit_fresh-Committed d p (commit_cache_slot p d.files (out.save_private_cache d.clock) slot)
        (commit_cache_slot-nodes p d.files (out.save_private_cache d.clock) slot)
