-- ===== src/Supervisor/Activation/Moves.antt =====
-- What starting and publishing one path changes (src/supervisor.rs, `try_activate` and `install_active`).
use causeway.Prelude.{◌+◌, ◌%◌, ◌^◌, ◌≡◌, refl, sym, ◌∙◌, ap, inl, inr, ◌⊎◌, some, ◌∷◌, arith}
use causeway.Prelude.Text.{Text, text_eq_refl}
use causeway.Prelude.Map.{get, get-insert}
use causeway.Prelude.Result.{Result, ok, err}
use causeway.Listener.Conn.{SocketAddr}
use causeway.Subscription.{Node, name}
use causeway.Supervisor.Backoff.{reset}
use causeway.Supervisor.Activation.{
  ActiveNode, ClassRuntime, class_state, Start, start_failed, started, Check, code, check_failed,
  Env, Sys, tick, retire, precheck, settle, launch, try_activate, install_active,
}

module _ {F64 : Type 0} where
  -- Nothing of the class and of its paths has changed.
  pub record Unmoved (s s' : Sys F64) : Type 0 where
    pub rt_kept : s'.rt ≡ s.rt
    pub running_kept : s'.running ≡ s.running
    pub draining_kept : s'.draining ≡ s.draining
    pub saved_kept : s'.saved ≡ s.saved
    pub classes_kept : s'.state.classes ≡ s.state.classes

  -- One path has been started, published and recorded, and the one before it, if any, was retired.
  pub record Switched (env : Env F64) (s s' : Sys F64) (a : ActiveNode) : Type 0 where
    pub active : s'.rt.active ≡ some a
    pub route : s'.rt.route ≡ record {
      socks_upstream = some a.socks_addr;
      http_upstream = some a.http_addr;
      node_name = name a.node;
      generation = (s.rt.route.generation + 1) % 2 ^ 64;
      path_connections = some a.handle;
      traffic_subscription = env.subscription;
    }
    pub recorded :
        get s.rt.name s'.state.classes
        ≡ some (record {
          active_node = some (name a.node);
          socks_port = some a.socks_addr.port;
          http_port = some a.http_addr.port;
          generation = (s.rt.route.generation + 1) % 2 ^ 64;
        })
    pub name_kept : s'.rt.name ≡ s.rt.name
    pub clean : (s'.rt.auto_recovery ≡ reset) × (s'.rt.health_failures ≡ 0)
    pub one_more : s'.running ≡ a.handle ∷ s.running
    pub old_retired : s'.draining ≡ retire s.rt.active s.draining
    pub written : s'.saved ≡ some s'.state

  pub Unmoved-trans : {s t u : Sys F64} → Unmoved s t → Unmoved t u → Unmoved s u
  Unmoved-trans h k = record {
    rt_kept = k.rt_kept ∙ h.rt_kept;
    running_kept = k.running_kept ∙ h.running_kept;
    draining_kept = k.draining_kept ∙ h.draining_kept;
    saved_kept = k.saved_kept ∙ h.saved_kept;
    classes_kept = k.classes_kept ∙ h.classes_kept;
  }

  -- A path that is up but not published.
  pub record Ready (node : Node) (s s' : Sys F64) (a : ActiveNode) : Type 0 where
    pub of_node : a.node ≡ node
    pub rt_kept : s'.rt ≡ s.rt
    pub one_more : s'.running ≡ a.handle ∷ s.running
    pub draining_kept : s'.draining ≡ s.draining

  abbrev pub Tried : Node → Sys F64 → Result Text ActiveNode × Sys F64 → Type 0
  Tried node s (r, s') =
      ((e : Text) × (r ≡ err e) × Unmoved s s')
      ⊎ ((a : ActiveNode) × (r ≡ ok a) × Ready node s s' a)

  -- The system while the new data plane runs.
  abbrev up : Sys F64 → Sys F64
  up s = record s { clock = s.clock + 1; attempts = s.attempts + 1; running = s.clock ∷ s.running }

  settle-Tried :
      (s : Sys F64) (node : Node) (r : Result Text ActiveNode)
      → ((a : ActiveNode) → r ≡ ok a → (a.node ≡ node) × (a.handle ≡ s.clock))
      → Tried node s (settle s.clock (up s) r)
  unfolding settle
  settle-Tried s node (ok a) h = inr (
    a,
    refl,
    record {
      of_node = (h a refl).0;
      rt_kept = refl;
      one_more = ap (λ n. n ∷ s.running) (sym (h a refl).1);
      draining_kept = refl;
    },
  )
  settle-Tried s node (err e) h = inl (
    e,
    refl,
    record {
      rt_kept = refl;
      running_kept = ground arith;
      draining_kept = refl;
      saved_kept = refl;
      classes_kept = refl;
    },
  )

  precheck-ok :
      (env : Env F64) (s : Sys F64) (node : Node) (socks http : SocketAddr) (check : Check)
      (a : ActiveNode)
      → precheck env s node socks http check ≡ ok a
      → (a.node ≡ node) × (a.handle ≡ s.clock)
  unfolding precheck
  precheck-ok env s node socks http (code c) a e = (ground arith, ground arith)
  precheck-ok env s node socks http (check_failed m) a e = cc

  launch-Tried :
      (env : Env F64) (s : Sys F64) (node : Node) (o : Start) → Tried node s (launch env s node o)
  unfolding launch
  launch-Tried env s node (start_failed e) = inl (
    e,
    refl,
    record {
      rt_kept = refl;
      running_kept = refl;
      draining_kept = refl;
      saved_kept = refl;
      classes_kept = refl;
    },
  )
  launch-Tried env s node (started socks http check) =
      settle-Tried s node (precheck env s node socks http check)
        (precheck-ok env s node socks http check)

  pub try_activate-Tried :
      (env : Env F64) (s : Sys F64) (node : Node) → Tried node s (try_activate env s node)
  unfolding try_activate
  try_activate-Tried env s node = launch-Tried env s node (env.start s.clock node)

  -- To publish a path that is up.
  pub install_active-Switched :
      (env : Env F64) (s t : Sys F64) (node : Node) (a : ActiveNode) (reason : Text)
      → Ready node s t a
      → Switched env s (install_active env t a reason) a
  unfolding install_active
  install_active-Switched env s t node a reason h = record {
    active = refl;
    route = rw h.rt_kept refl;
    recorded = rw h.rt_kept (
        ground (
          arith,
          get-insert s.rt.name s.rt.name (class_state a ((s.rt.route.generation + 1) % 2 ^ 64))
              t.state.classes,
          text_eq_refl s.rt.name,
        ));
    name_kept = ap (λ (rt : ClassRuntime). rt.name) h.rt_kept;
    clean = (refl, refl);
    one_more = h.one_more;
    old_retired = rw (h.rt_kept, h.draining_kept) refl;
    written = refl;
  }

  pub Switched-after :
      {s t u : Sys F64} (env : Env F64) (a : ActiveNode)
      → Unmoved s t
      → Switched env t u a
      → Switched env s u a
  Switched-after env a h k = record {
    active = k.active;
    route = k.route ∙ rw h.rt_kept refl;
    recorded = rw (sym h.rt_kept) k.recorded;
    name_kept = k.name_kept ∙ ap (λ (rt : ClassRuntime). rt.name) h.rt_kept;
    clean = k.clean;
    one_more = k.one_more ∙ ap (λ l. a.handle ∷ l) h.running_kept;
    old_retired = k.old_retired ∙ rw (h.rt_kept, h.draining_kept) refl;
    written = k.written;
  }

  pub Unmoved-refl : (s : Sys F64) → Unmoved s s
  Unmoved-refl s = record {
    rt_kept = refl;
    running_kept = refl;
    draining_kept = refl;
    saved_kept = refl;
    classes_kept = refl;
  }

  pub tick-Unmoved : (s : Sys F64) → Unmoved s (tick s)
  tick-Unmoved s = record {
    rt_kept = refl;
    running_kept = refl;
    draining_kept = refl;
    saved_kept = refl;
    classes_kept = refl;
  }
