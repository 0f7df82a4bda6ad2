-- ===== src/State/Activate.antt =====
-- Profile activation and the single copy of the active statistics (src/state.rs).
use causeway.Prelude.{◌≡◌, true, none, some, arith}
use causeway.Prelude.Text.{Text, is_text, is_text_iff}
use causeway.Prelude.Map.{get, get-remove}
use causeway.State.{
  StateFile, remove_subscription, invalidate_subscription_source, activate_subscription,
}

module _ {F64 : Type 0} where
  -- There is one copy of the active statistics: no inactive entry for the active profile.
  abbrev pub IsSingle : StateFile F64 → Type 0
  IsSingle st =
      (name : Text)
      → is_text st.active_subscription name ≡ true
      → get name st.subscription_nodes ≡ none

  pub remove_subscription-IsSingle :
      (st : StateFile F64) (name : Text) → IsSingle st → IsSingle (remove_subscription st name)
  unfolding remove_subscription
  remove_subscription-IsSingle st name h other e =
      ground (arith, h other, get-remove name other st.subscription_nodes)

  pub invalidate_subscription_source-IsSingle :
      (st : StateFile F64) (name identity : Text)
      → IsSingle st
      → IsSingle (invalidate_subscription_source st name identity)
  unfolding invalidate_subscription_source
  invalidate_subscription_source-IsSingle st name identity h other e =
      ground (arith, h other e, get-remove name other st.subscription_nodes)

  pub activate_subscription-active :
      (st : StateFile F64) (name : Text)
      → (activate_subscription st name).0.active_subscription ≡ some name
  unfolding activate_subscription
  activate_subscription-active st name = ground (arith, is_text_iff st.active_subscription name)
