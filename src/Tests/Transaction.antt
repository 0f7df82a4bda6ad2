-- ===== src/Tests/Transaction.antt =====
-- The theorems on the change of the subscription at a concrete daemon: two classes, one with an
-- active path, and a new profile that has one node which passes its check.
use causeway.Prelude.{◌≡◌, false, true, none, some, [], ◌∷◌, filterb}
use causeway.Prelude.Text.{Text, codes}
use causeway.Prelude.Int.{ℤ, pos}
use causeway.Prelude.Result.{ok}
use causeway.Listener.Traffic.{empty}
use causeway.State.Persist.{durable}
use causeway.Subscription.Cache.{FilePath, Files, PreparedProfile}
use causeway.Supervisor.Activation.{ClassRuntime}
use causeway.Supervisor.Backoff.{reset}
use causeway.Supervisor.Candidates.{in_regions, profile_candidates}
use causeway.Supervisor.Candidates.Profile.{offers, AllNamed, first_name, profile_candidates_names}
use causeway.Supervisor.Transaction.Daemon.{Catalog, Daemon, Outside}
use causeway.Tests.Choosing.{milli, insertion, node}
use causeway.Tests.Sources.{home, work}
use causeway.Tests.Supervising.{env, system, pool}

abbrev cache : FilePath
cache = record { parent = codes "cache"; file_name = some (codes "work.yaml") }

abbrev fetched : PreparedProfile
fetched = record {
  nodes = node (codes "se") ∷ node (codes "de") ∷ [];
  pending_cache = some (cache, codes "proxies");
  committed_slot = none;
}

abbrev no_files : Files
no_files p = none

abbrev second : ClassRuntime
second = record {
  name = codes "media";
  route = record {
    socks_upstream = none;
    http_upstream = none;
    node_name = [];
    generation = 0;
    path_connections = none;
    traffic_subscription = home;
  };
  active = none;
  auto_recovery = reset;
  health_failures = 0;
}

abbrev profiles : Catalog
profiles = (home, some (codes "h1")) ∷ (work, some (codes "w1")) ∷ []

abbrev daemon : Daemon ℤ
daemon = record {
  clock = 1;
  attempts = 1;
  running = 0 ∷ [];
  draining = [];
  events = system.events;
  state = system.state;
  committed = none;
  classes = system.rt ∷ second ∷ [];
  subscriptions = record { active = home; nodes = pool; catalog = profiles; generation = 0 };
  traffic = empty;
  files = no_files;
}

abbrev outside : Outside ℤ
outside = record {
  class_env = λ class. env;
  prepare_profile = λ t profile. some fetched;
  load_snapshot = λ t profile slot. [];
  late = λ t. false;
  save_private_cache = λ t. true;
  commit_outcome = λ t. ok durable;
  save_state = λ t. true;
  now_unix = λ t. pos t;
}

profile_candidates_names_example :
    let l = profile_candidates milli insertion pool none (some (codes "us")) [] in
    let kept = filterb (in_regions []) pool in
    ((x : Text) → offers x l ≡ offers x kept)
    × AllNamed l
    × ((x : Text) → some (codes "us") ≡ some x → offers x kept ≡ true → first_name l ≡ some x)
profile_candidates_names_example =
    profile_candidates_names milli insertion pool none (some (codes "us")) []
