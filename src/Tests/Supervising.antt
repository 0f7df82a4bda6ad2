-- ===== src/Tests/Supervising.antt =====
-- The theorems on the supervisor of one class at a concrete system: one active path, a pool of three
-- nodes, and a data plane on which only one of them passes its check.
use causeway.Prelude.{ℕ, ◌+◌, ◌*◌, ◌≡◌, refl, true, false, none, some, List, [], ◌∷◌, if◌then◌else◌}
use causeway.Prelude.Text.{codes, text_eq}
use causeway.Prelude.Int.{ℤ, pos}
use causeway.Prelude.Result.{ok}
use causeway.Listener.Conn.{SocketAddr}
use causeway.Subscription.{Node, name}
use causeway.Supervisor.Backoff.{reset, is_ready_at}
use causeway.Supervisor.Activation.{ActiveNode, started, code, Env, Sys, tick}
use causeway.Supervisor.Switching.{
  switch_to, recover_after_health_failure, health_turn, probe_decision,
}
use causeway.Supervisor.Switching.Manual.{Answered, switch_to-Answered}
use causeway.Supervisor.Switching.Health.{pinned_stays, Retried, recover_after_health_failure_paced}
use causeway.Supervisor.Sites.{Site, switch_for_site}
use causeway.Supervisor.Sites.Served.{Said, switch_for_site-Said}
use causeway.Tests.Choosing.{milli, insertion, node, probed}
use causeway.Tests.Sources.{stored}

abbrev addr : ℕ → SocketAddr
addr port = record { ip = 2130706433; port = port }

abbrev pub pool : List Node
pool = node (codes "jp") ∷ node (codes "us") ∷ node (codes "de") ∷ []

abbrev pub env : Env ℤ
env = record {
  pool = pool;
  regions = [];
  auto_switch = true;
  health_override = false;
  ema_alpha = pos 300;
  fail_threshold = 3;
  subscription = codes "home";
  start = λ t n.
      if text_eq (name n) (codes "de")
      then started (addr (2 * t + 20000)) (addr (2 * t + 20001)) (code 204)
      else started (addr 1) (addr 2) (code 503);
  bad_status = λ c. codes "HTTP";
  shutdown = λ t. false;
  now_unix = λ t. pos t;
  now = λ t. t;
}

abbrev incumbent : ActiveNode
incumbent = record {
  node = node (codes "jp");
  handle = 0;
  socks_addr = addr 1080;
  http_addr = addr 8080;
}

abbrev pub system : Sys ℤ
system = record {
  clock = 1;
  attempts = 1;
  running = 0 ∷ [];
  draining = [];
  events = record { inner = []; cap = 8 };
  state = record stored { nodes = (codes "de", probed 900 80) ∷ (codes "us", probed 950 60) ∷ [] };
  saved = none;
  rt = record {
    name = codes "default";
    route = record {
      socks_upstream = some (addr 1080);
      http_upstream = some (addr 8080);
      node_name = codes "jp";
      generation = 1;
      path_connections = some 0;
      traffic_subscription = codes "home";
    };
    active = some incumbent;
    auto_recovery = reset;
    health_failures = 2;
  };
}

switch_to-Answered_example :
    Answered milli insertion env system
      (codes "us")
      (switch_to milli insertion env system (codes "us"))
switch_to-Answered_example = switch_to-Answered milli insertion env system (codes "us")

abbrev pinned : Env ℤ
pinned = record env { auto_switch = false }

pinned_stays_example :
    let s' = health_turn milli insertion pinned system (some false) in
    (s'.rt.active ≡ some incumbent)
    × (s'.rt.route ≡ system.rt.route)
    × (s'.running ≡ system.running)
    × (s'.draining ≡ system.draining)
    × (probe_decision milli insertion pinned (pos 200) system ≡ system)
pinned_stays_example =
    pinned_stays milli insertion pinned (pos 200) system incumbent (some false) refl refl

recover_after_health_failure_paced_example :
    let s' = recover_after_health_failure milli insertion env system in
    (is_ready_at reset 1 ≡ false → s' ≡ tick system)
    × (is_ready_at reset 1 ≡ true → Retried milli insertion env (tick system) s')
recover_after_health_failure_paced_example =
    recover_after_health_failure_paced milli insertion env system refl

abbrev site : Site
site = record {
  name = codes "www.example.com";
  max_candidates = 3;
  verdict_ttl_secs = 600;
  https_status = λ t n. if text_eq (name n) (codes "jp") then ok 403 else ok 200;
}

switch_for_site-Said_example :
    Said milli insertion env site system (switch_for_site milli insertion env site system)
switch_for_site-Said_example = switch_for_site-Said milli insertion env site system
