-- ===== src/Supervisor/Sites/Served.antt =====
-- What the switch for a site may move, and what its reply says (src/supervisor.rs, `switch_for_site`).
use causeway.Prelude.{
  ◌≡◌, ◌≢◌, ◌∙◌, refl, sym, inl, inr, ◌⊎◌, Bool, true, false, Option, none, some, List, [], ◌∷◌,
  Bool-cases, arith,
}
use causeway.Prelude.Text.{Text}
use causeway.Prelude.Result.{Result, ok, err}
use causeway.Score.{Float}
use causeway.Siteprobe.{SiteVerdict}
use causeway.Subscription.{Node, name}
use causeway.Supervisor.Candidates.{Sorting}
use causeway.Supervisor.Activation.{Env, Sys, tick}
use causeway.Supervisor.Activation.Moves.{Unmoved}
use causeway.Supervisor.Switching.{SwitchOutcome, SwitchError, active_name, switch_to}
use causeway.Supervisor.Switching.Manual.{Answered, switch_to-Answered}
use causeway.Supervisor.Sites.{
  Site, SiteReply, kept, switched, no_candidate, is_ok, record_site_verdict, probe_site_node,
  probe_incumbent, judge, incumbent_verdict, save_state, search, search_pool, from_incumbent,
  switch_for_site,
}

module _ (F : Float) (sorting : Sorting Node) where
  pub record Still (s s' : Sys F.F64) : Type 0 where
    pub rt_kept : s'.rt ≡ s.rt
    pub running_kept : s'.running ≡ s.running

  probe-Still :
      (env : Env F.F64) (site : Site) (s : Sys F.F64) (node : Node)
      → Still s (probe_site_node env site s node).1
  unfolding probe_site_node record_site_verdict
  probe-Still env site s node = record { rt_kept = refl; running_kept = refl }

  Still-Unmoved : (s t u : Sys F.F64) → Still s t → Unmoved t u → Still s u
  Still-Unmoved s t u h k = record {
    rt_kept = k.rt_kept ∙ h.rt_kept;
    running_kept = k.running_kept ∙ h.running_kept;
  }

  -- What a reply says of the class before and after. A switch names the node it had before and a
  -- node that was probed and serves; the manual switch to it is `o`, which says whether it fell back.
  abbrev pub Said : Env F.F64 → Site → Sys F.F64 → SiteReply × Sys F.F64 → Type 0
  Said env site s (kept current, s') =
      (active_name s.rt.active ≡ some current) × (s'.rt ≡ s.rt) × (s'.running ≡ s.running)
  Said env site s (no_candidate before, s') =
      (before ≡ active_name s.rt.active) × (s'.rt ≡ s.rt) × (s'.running ≡ s.running)
  Said env site s (switched before after, s') =
      (node : Node) × (t : Sys F.F64) × (o : SwitchOutcome) × Still s t
      × (before ≡ active_name s.rt.active)
      × (name node ≡ after)
      × (is_ok (probe_site_node env site t node).0.status ≡ true)
      × ((switch_to F sorting env (probe_site_node env site t node).1 after).0 ≡ ok o)
      × (s' ≡ save_state (switch_to F sorting env (probe_site_node env site t node).1 after).1)
      × (active_name s'.rt.active ≡ some o.installed)
      × (o.fallback ≡ false → o.installed ≡ after)
      × (o.fallback ≡ true → o.installed ≢ after)

  Still-refl : (s : Sys F.F64) → Still s s
  Still-refl s = record { rt_kept = refl; running_kept = refl }

  Still-trans : (s t u : Sys F.F64) → Still s t → Still t u → Still s u
  Still-trans s t u h k = record {
    rt_kept = k.rt_kept ∙ h.rt_kept;
    running_kept = k.running_kept ∙ h.running_kept;
  }

  same_before :
      (s t : Sys F.F64) (before : Option Text)
      → Still s t
      → before ≡ active_name t.rt.active
      → before ≡ active_name s.rt.active
  same_before s t before h e = e ∙ rw h.rt_kept refl

  Said-after :
      (env : Env F.F64) (site : Site) (s t : Sys F.F64) (o : SiteReply × Sys F.F64)
      → Still s t
      → Said env site t o
      → Said env site s o
  Said-after env site s t (kept current, u) h (a, b, c) =
      (ground (arith, h.rt_kept), b ∙ h.rt_kept, c ∙ h.running_kept)
  Said-after env site s t (no_candidate before, u) h (a, b, c) =
      (same_before s t before h a, b ∙ h.rt_kept, c ∙ h.running_kept)
  Said-after env site s t (switched before after, u) h (node, v, o, k, b, n, q, r, e, i, f, g) =
      (node, v, o, Still-trans s t v h k, same_before s t before h b, n, q, r, e, i, f, g)

  search-pass :
      (env : Env F.F64) (site : Site) (before : Option Text) (s : Sys F.F64) (node : Node)
      (nodes : List Node) (o : SwitchOutcome)
      → let (v, t) = probe_site_node env site s node in
        is_ok v.status ≡ true
        → (switch_to F sorting env t (name node)).0 ≡ ok o
        → search F sorting env site before s (node ∷ nodes)
          ≡ (switched before (name node), save_state (switch_to F sorting env t (name node)).1)
  unfolding search
  search-pass env site before s node nodes o v e = ground arith

  search-fail :
      (env : Env F.F64) (site : Site) (before : Option Text) (s : Sys F.F64) (node : Node)
      (nodes : List Node) (e : SwitchError)
      → let (v, t) = probe_site_node env site s node in
        is_ok v.status ≡ true
        → (switch_to F sorting env t (name node)).0 ≡ err e
        → search F sorting env site before s (node ∷ nodes)
          ≡ search F sorting env site before (switch_to F sorting env t (name node)).1 nodes
  unfolding search
  search-fail env site before s node nodes m v e = ground arith

  search-skip :
      (env : Env F.F64) (site : Site) (before : Option Text) (s : Sys F.F64) (node : Node)
      (nodes : List Node)
      → let (v, t) = probe_site_node env site s node in
        is_ok v.status ≡ false
        → search F sorting env site before s (node ∷ nodes)
          ≡ search F sorting env site before t nodes
  unfolding search
  search-skip env site before s node nodes v = ground arith

  search-nil :
      (env : Env F.F64) (site : Site) (before : Option Text) (s : Sys F.F64)
      → search F sorting env site before s [] ≡ (no_candidate before, save_state s)
  unfolding search
  search-nil env site before s = refl

  Switch-cases :
      (env : Env F.F64) (s : Sys F.F64) (requested : Text)
      (r : Result SwitchError SwitchOutcome × Sys F.F64)
      → Answered F sorting env s requested r
      → ((o : SwitchOutcome) × (r.0 ≡ ok o)
          × (o.requested ≡ requested)
          × (active_name r.1.rt.active ≡ some o.installed)
          × (o.fallback ≡ false → o.installed ≡ requested)
          × (o.fallback ≡ true → o.installed ≢ requested))
        ⊎ ((e : SwitchError) × (r.0 ≡ err e) × Unmoved s r.1)
  Switch-cases env s requested (ok o, t) (a, b, c, d, e, f) = inl (o, refl, a, b, c, d)
  Switch-cases env s requested (err e, t) h = inr (e, refl, h)

  search-Said :
      (env : Env F.F64) (site : Site) (before : Option Text) (nodes : List Node) (s : Sys F.F64)
      → before ≡ active_name s.rt.active
      → Said env site s (search F sorting env site before s nodes)
  search-Said env site before [] s eq = rw (search-nil env site before s) (eq, refl, refl)
  search-Said env site before (node ∷ nodes) s eq =
      let t = (probe_site_node env site s node).1 in
      let h = probe-Still env site s node in
      elim (Bool-cases (is_ok (probe_site_node env site s node).0.status)) [
        | inr e ↦ rw (search-skip env site before s node nodes e) (
            Said-after env site s t _ h
              (search-Said env site before nodes t (eq ∙ rw h.rt_kept refl)))
        | inl e ↦
            elim (Switch-cases env t (name node) _
              (switch_to-Answered F sorting env t (name node))) [
                | inl (o, r, a, b, c, d) ↦
                    rw (search-pass env site before s node nodes o e r)
                      (node, s, o, Still-refl s, eq, refl, e, r, refl, b, c, d)
                | inr (m, r, k) ↦ rw (search-fail env site before s node nodes m e r) (
                    let g = Still-Unmoved s t _ h k in
                    Said-after env site s _ _ g
                      (search-Said env site before nodes _ (eq ∙ rw g.rt_kept refl)))
              ]
      ]

  incumbent-Still :
      (env : Env F.F64) (site : Site) (s : Sys F.F64) (found : Option Node)
      → Still s (probe_incumbent env site s found).1
  unfolding probe_incumbent
  incumbent-Still env site s none = record { rt_kept = refl; running_kept = refl }
  incumbent-Still env site s (some node) = probe-Still env site s node

  judge-Still :
      (env : Env F.F64) (site : Site) (s : Sys F.F64) (current : Text) (fresh : Option SiteVerdict)
      → Still s (judge env site s current fresh).1
  unfolding judge
  judge-Still env site s current (some v) = record { rt_kept = refl; running_kept = refl }
  judge-Still env site s current none = incumbent-Still env site s _

  from_incumbent-Said :
      (env : Env F.F64) (site : Site) (s : Sys F.F64) (current : Option Text)
      → active_name s.rt.active ≡ current
      → Said env site s (from_incumbent F sorting env site s current)
  unfolding from_incumbent search_pool incumbent_verdict
  from_incumbent-Said env site s none e = search-Said env site none _ s (sym e)
  from_incumbent-Said env site s (some current) e =
      let h = judge-Still env site (tick s) current _ in
      let k : Still s (incumbent_verdict env site s current).1 = record {
        rt_kept = h.rt_kept;
        running_kept = h.running_kept;
      } in
      elim (Bool-cases (is_ok (incumbent_verdict env site s current).0.status)) [
        | inl good ↦ rw good (e, k.rt_kept, k.running_kept)
        | inr bad ↦ rw bad (
            Said-after env site s _ _ k
              (search-Said env site (some current) _ _ (sym e ∙ rw k.rt_kept refl)))
      ]

  -- A switch for a site that reports the incumbent as kept, or that found no candidate, has moved
  -- the class. When it reports a switch, the node that it names was probed and serves the site, and
  -- the system is what the manual switch to that node left, saved; that switch succeeded, and the
  -- named node is the active one exactly if it did not fall back: where it did, another node is
  -- active, so the reply names a node that does not carry the class. The reply also names the node
  -- that was active before.
  pub switch_for_site-Said :
      (env : Env F.F64) (site : Site) (s : Sys F.F64)
      → Said env site s (switch_for_site F sorting env site s)
  unfolding switch_for_site
  switch_for_site-Said env site s = from_incumbent-Said env site s _ refl

  abbrev pub is_kept : SiteReply → Bool
  is_kept (kept current) = true
  is_kept (switched before after) = false
  is_kept (no_candidate before) = false
