-- ===== src/State/Catalog.antt =====
-- `apply_subscription_catalog` of src/state.rs against its effect on each profile.
use causeway.Prelude.{
  ◌≡◌, ◌∙◌, refl, Bool, false, not, ◌&&◌, ◌||◌, Option, none, some, [], if◌then◌else◌, arith,
  is_some, ap,
}
use causeway.Prelude.Text.{Text, text_eq_refl, text_eq_iff, is_text}
use causeway.Prelude.Map.{Map, get, contains_key}
use causeway.State.{
  StateFile, or_empty, differs, source_is_trusted, invalidate_subscription_source,
  nodes_for_subscription, apply_entry, apply_subscription_catalog, remove_absent,
}
use causeway.State.Profile.{Profile, view, blank, invalidated, trusted, view-invalidate, view-trust}
use causeway.State.Loops.{Distinct, known, Own, at_entry, view-fold, view-remove_absent}

module _ {F64 : Type 0} where
  -- What a reload makes of a profile that the new catalog names.
  abbrev pub applied : Map Text → Option Text → Text → Text → Profile F64 → Profile F64
  applied previous freshly_trusted name identity p =
      let checked : Profile F64 =
        if not (is_text (get name previous) identity)
          || differs p.identity identity
          || differs p.pending identity
        then invalidated p identity
        else p in
      if is_text freshly_trusted name then trusted checked identity else checked

  apply_entry-Own :
      (previous : Map Text) (fresh : Option Text)
      → Own (apply_entry previous fresh) (applied previous fresh)
  unfolding apply_entry
  apply_entry-Own previous fresh st n i j = ground (
    arith,
    text_eq_iff n j,
    view-invalidate st n i j,
    view-trust st n i j,
    view-trust (invalidate_subscription_source st n i) n i j,
  )

  -- A reload changes the state profile by profile: a name that the new catalog lacks and some
  -- persisted map knows is forgotten, a name that neither has is left alone, and a name of the new
  -- catalog is invalidated if its source changed or contradicts what was stored, and then trusted
  -- if it is the freshly checked one.
  pub apply_subscription_catalog_profile :
      (st : StateFile F64) (previous next : Map Text) (fresh : Option Text) (name : Text)
      → Distinct next
      → view (apply_subscription_catalog st previous next fresh) name
        ≡ at_entry
            (applied previous fresh)
            name
            (get name next)
            (if known st name && not (contains_key name next) then blank else view st name)
  unfolding apply_subscription_catalog
  apply_subscription_catalog_profile st previous next fresh name d =
      rw
        (
          view-fold (apply_entry previous fresh) (applied previous fresh)
              (apply_entry-Own previous fresh) next (remove_absent st next) name d,
          view-remove_absent st next name,
        )
        refl

  view-catalog_entry :
      (st : StateFile F64) (previous next : Map Text) (fresh : Option Text) (name identity : Text)
      → Distinct next
      → get name next ≡ some identity
      → view (apply_subscription_catalog st previous next fresh) name
        ≡ applied previous fresh name identity (view st name)
  view-catalog_entry st previous next fresh name identity d e =
      apply_subscription_catalog_profile st previous next fresh name d ∙ rw e (ground arith)

  unfoldable pub trusted_profile : Profile F64 → Text → Bool
  trusted_profile p identity = is_text p.identity identity && not (is_some p.pending)

  applied-trusted_profile :
      (previous : Map Text) (fresh : Option Text) (name identity : Text) (p : Profile F64)
      → trusted_profile (applied previous fresh name identity p) identity
        ≡ is_text fresh name || trusted_profile p identity && is_text (get name previous) identity
  unfolding trusted_profile
  applied-trusted_profile previous fresh name identity p = ground (arith, text_eq_refl identity)

  -- After a reload a source of the new catalog is trusted exactly if it is the freshly checked one,
  -- or it was trusted before under the same identity and the old catalog had that identity too.
  pub source_is_trusted-apply_subscription_catalog :
      (st : StateFile F64) (previous next : Map Text) (fresh : Option Text) (name identity : Text)
      → Distinct next
      → get name next ≡ some identity
      → source_is_trusted (apply_subscription_catalog st previous next fresh) name identity
        ≡ is_text fresh name
          || source_is_trusted st name identity && is_text (get name previous) identity
  unfolding source_is_trusted trusted_profile
  source_is_trusted-apply_subscription_catalog st previous next fresh name identity d e =
      ap (λ p. trusted_profile p identity)
        (view-catalog_entry st previous next fresh name identity d e)
      ∙ applied-trusted_profile previous fresh name identity (view st name)

  -- A source that changed under its name, and that is not the freshly checked one, keeps nothing of the old one: no trust, no cache slot and
  -- no statistics; and the new identity is marked pending.
  pub apply_subscription_catalog_isolates :
      (st : StateFile F64) (previous next : Map Text) (fresh : Option Text) (name identity : Text)
      → Distinct next
      → get name next ≡ some identity
      → is_text (get name previous) identity ≡ false
      → is_text fresh name ≡ false
      → let after = apply_subscription_catalog st previous next fresh in
        (source_is_trusted after name identity ≡ false)
        × (get name after.subscription_cache_slots ≡ none)
        × (get name after.pending_subscription_sources ≡ some identity)
        × (or_empty (nodes_for_subscription after name) ≡ [])
  apply_subscription_catalog_isolates st previous next fresh name identity d e changed stale =
      let v = view-catalog_entry st previous next fresh name identity d e in
      (
        source_is_trusted-apply_subscription_catalog st previous next fresh name identity d e
            ∙ ground arith,
        ground (arith, v),
        ground (arith, v),
        ground (arith, v),
      )
