-- ===== src/Tests/Locking.antt =====
-- The theorem on the lock of the dashboard at a concrete session.
use causeway.Prelude.{◌≡◌, refl, true, false, none, some, List, [], ◌∷◌}
use causeway.Prelude.Text.{codes, text_eq, text_cmp}
use causeway.Dashboard.{
  App, StatusSnapshot, SubscriptionOutcomeUnknown, SubscriptionSummary, info, unavailable, switch,
  Editor, enter, apply_live_snapshot, picker_key,
}
use causeway.Dashboard.Lock.{Input, arrived, run, Among, Proves, picker_key-Proves}
use causeway.Tests.Sources.{home, work}

abbrev offered : List SubscriptionSummary
offered =
    record { name = home; node_count = none } ∷ record { name = work; node_count = some 2 } ∷ []

abbrev lost : SubscriptionOutcomeUnknown
lost = record { previous = home; requested = work; subscription_generation_before_request = 3 }

abbrev session : App
session = record {
  connected = true;
  snapshot = none;
  subscription_outcome_unknown = some lost;
  subscription_picker = some (record { entries = offered; selected = 0; url_edit = none });
  offline_subscription = unavailable;
  fallback_subscriptions = [];
  message_level = info;
}

abbrev status : StatusSnapshot
status = record {
  active_subscription = some work;
  subscription_generation = some 4;
  subscription_txn_in_progress = some false;
  available_subscriptions = offered;
}

abbrev editor : Editor
editor = record {
  has_url_file = λ name. true;
  is_whitespace = λ c. text_eq c (codes " ");
  is_control = λ c. false;
  writes = λ name url. true;
}

abbrev met : List Input
met = arrived status ∷ []

sends_home : (picker_key editor (run editor session met) enter).0 ≡ switch home
unfolding picker_key run apply_live_snapshot text_cmp
sends_home = refl

picker_key-Proves_example : (s : StatusSnapshot) × Among s met × Proves lost s
picker_key-Proves_example = picker_key-Proves editor session lost met enter home refl sends_home
