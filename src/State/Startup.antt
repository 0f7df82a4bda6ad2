-- ===== src/State/Startup.antt =====
-- `reconcile_startup_sources` of src/state.rs against its effect on each profile.
use causeway.Prelude.{
  ◌≡◌, ◌∙◌, sym, ap, not, ◌&&◌, ◌||◌, Option, none, some, if◌then◌else◌, arith, is_some,
}
use causeway.Prelude.Text.{Text, text_eq, text_eq_iff, text_eq_refl}
use causeway.Prelude.Map.{Map, get, contains_key}
use causeway.State.{
  StateFile, differs, source_is_trusted, remove_absent, quarantine_entry, adopt_entry, fold_left,
  reconcile_startup_sources,
}
use causeway.State.Profile.{Profile, view, invalidated, trusted, view-invalidate, view-trust}
use causeway.State.Loops.{Distinct, Own, view-fold, view-remove_absent}
use causeway.State.Catalog.{trusted_profile}

module _ {F64 : Type 0} where
  abbrev pub quarantined : Text → Text → Profile F64 → Profile F64
  quarantined name identity p =
      if differs p.identity identity || differs p.pending identity
      then invalidated p identity
      else p

  abbrev pub adopted_by : Option Text → Text → Profile F64 → Profile F64
  adopted_by none identity p = trusted p identity
  adopted_by (some stored) identity p =
      if text_eq stored identity then p else invalidated p identity

  abbrev pub adopted : Text → Text → Profile F64 → Profile F64
  adopted name identity p = if is_some p.pending then p else adopted_by p.identity identity p

  quarantine_entry-Own : Own {F64 = F64} quarantine_entry quarantined
  unfolding quarantine_entry
  quarantine_entry-Own st n i j = ground (arith, text_eq_iff n j, view-invalidate st n i j)

  adopt_entry-Own : Own {F64 = F64} adopt_entry adopted
  unfolding adopt_entry
  adopt_entry-Own st n i j =
      ground (arith, text_eq_iff n j, view-invalidate st n i j, view-trust st n i j)

  -- A profile of the configured catalog comes out of startup quarantined and then adopted.
  view-reconcile_startup_sources :
      (st : StateFile F64) (current : Map Text) (name identity : Text)
      → Distinct current
      → get name current ≡ some identity
      → view (reconcile_startup_sources st current) name
        ≡ adopted name identity (quarantined name identity (view st name))
  unfolding reconcile_startup_sources
  view-reconcile_startup_sources st current name identity d e =
      rw
        (
          view-fold adopt_entry adopted adopt_entry-Own current
              (fold_left quarantine_entry (remove_absent st current) current) name d,
          view-fold quarantine_entry quarantined quarantine_entry-Own current
              (remove_absent st current) name d,
          view-remove_absent st current name,
          e,
        )
        (ground arith)

  -- After startup a configured source is trusted exactly if it carried no pending mark and its
  -- stored identity is the configured one or, for a state written by an older daemon, missing.
  pub source_is_trusted-reconcile_startup_sources :
      (st : StateFile F64) (current : Map Text) (name identity : Text)
      → Distinct current
      → get name current ≡ some identity
      → source_is_trusted (reconcile_startup_sources st current) name identity
        ≡ not (contains_key name st.pending_subscription_sources)
          && not (differs (get name st.subscription_source_identities) identity)
  unfolding source_is_trusted trusted_profile
  source_is_trusted-reconcile_startup_sources st current name identity d e =
      let v = view-reconcile_startup_sources st current name identity d e in
      ap (λ p. trusted_profile p identity) v ∙ ground (arith, text_eq_refl identity)

  adopted_idem :
      (name identity : Text) (p : Profile F64)
      → let q = adopted name identity (quarantined name identity p) in
        adopted name identity (quarantined name identity q) ≡ q
  adopted_idem name identity p = ground (arith, text_eq_refl identity)

  -- Starting again with the same configuration changes nothing of a configured profile.
  pub reconcile_startup_sources_idem :
      (st : StateFile F64) (current : Map Text) (name identity : Text)
      → Distinct current
      → get name current ≡ some identity
      → view (reconcile_startup_sources (reconcile_startup_sources st current) current) name
        ≡ view (reconcile_startup_sources st current) name
  reconcile_startup_sources_idem st current name identity d e =
      let v = view-reconcile_startup_sources st current name identity d e in
      let w =
        view-reconcile_startup_sources (reconcile_startup_sources st current) current name identity
          d e in
      w
      ∙ ap (λ p. adopted name identity (quarantined name identity p)) v
      ∙ adopted_idem name identity (view st name)
      ∙ sym v
