-- ===== src/Tests/Listening.antt =====
-- The theorems on the event ring, the listener, the egress and the subscription entries, at concrete inputs.
use mathlib.Core.List.Perm
use causeway.Prelude.{
  ℕ, ◌≡◌, ◌≢◌, refl, false, Option, none, some, List, [], ◌∷◌, min, max, last_n, arith,
}
use causeway.Prelude.Text.{Text, codes, is_text, text_cmp}
use causeway.Prelude.Map.{get}
use causeway.Events.{new, push_all, snapshot}
use causeway.Events.Ring.{snapshot-push_all}
use causeway.Listener.Traffic
use causeway.Listener.Traffic.{TrafficState, u64_max, or_default}
use causeway.Listener.Traffic.Sums.{Call, adds, selects, after, carried, ups, downs, snapshot-sums}
use causeway.Listener.Throttle.{AcceptErrorThrottle}
use causeway.Listener.Conn.{SocketAddr, ClassRoute, peeked, connected, piped, handle_conn}
use causeway.Listener.Conn.Routing.{Leads, piped_inversion}
use causeway.Listener.Paths.{
  World, stopped, forced, start, publish, capture, release, stop, publishes, captures, releases,
  stops, here, next, occurs,
}
use causeway.Listener.Paths.Drain.{Reach-drained}
use causeway.Egress.Routes.{
  DefaultRoute, EgressSignature, preferred, min_metric, route_cmp, has_default_route,
}
use causeway.Egress.Routes.Preferred.{preferred-perm}
use causeway.Egress.Observer
use causeway.Egress.Debounce.{
  History, observer, Debounced, observe-Debounced, Spaced, delivery_times, delivery_times-Spaced,
}

abbrev pushed : List ℕ
pushed = 1 ∷ 2 ∷ 3 ∷ []

snapshot-push_all_example : snapshot (push_all (new 2) pushed) ≡ last_n (max 2 1) pushed
snapshot-push_all_example = snapshot-push_all 2 pushed

abbrev airport : Text
airport = codes "airport"

abbrev tokyo : Text
tokyo = codes "tokyo"

-- Newest first: bytes for another subscription between the two counted ones.
abbrev calls : List Call
calls =
    adds airport tokyo 5 7
    ∷ adds (codes "old") tokyo 9 9
    ∷ adds airport tokyo 1 2
    ∷ selects airport
    ∷ []

snapshot-sums_example :
    let t = or_default (get tokyo (Traffic.snapshot (after calls))) in
    (t.up ≡ min (carried ups tokyo calls) u64_max)
    × (t.down ≡ min (carried downs tokyo calls) u64_max)
snapshot-sums_example = snapshot-sums calls tokyo

abbrev throttled : AcceptErrorThrottle
throttled = record { last_kind = some 24; suppressed = 8; last_log = 1 }

abbrev socks_addr : SocketAddr
socks_addr = record { ip = 2130706433; port = 1080 }

abbrev route : ClassRoute
route = record {
  socks_upstream = some socks_addr;
  http_upstream = none;
  node_name = tokyo;
  generation = 1;
  path_connections = some 0;
  traffic_subscription = airport;
}

abbrev bytes : Option (ℕ × ℕ)
bytes = some (10, 20)

abbrev traffic : TrafficState
traffic = record { subscription = some airport; nodes = [] }

piped_run :
    (handle_conn traffic route (peeked (5 ∷ 1 ∷ [])) connected bytes).ending
    ≡ piped socks_addr 10 20
unfolding handle_conn
piped_run = refl

piped_inversion_example :
    (first : ℕ) × (more : List ℕ) × (peeked (5 ∷ 1 ∷ []) ≡ peeked (first ∷ more))
    × Leads route first socks_addr
    × (bytes ≡ some (10, 20))
    × ((handle_conn traffic route (peeked (5 ∷ 1 ∷ [])) connected bytes).lease ≡ some 0)
piped_inversion_example =
    piped_inversion traffic route (peeked (5 ∷ 1 ∷ [])) connected bytes socks_addr 10 20 piped_run

foreign : is_text (some tokyo) airport ≡ false
unfolding text_cmp
foreign = refl

-- A path is used, replaced, drained and stopped.
abbrev used : World
used = capture (publish start) 0

abbrev drained : World
drained = release (publish used) 0

Reach-drained_example :
    ((stop drained 0).path_connections 0 ≡ occurs 0 (stop drained 0).live)
    × ((stop drained 0).phase 0 ≡ stopped → occurs 0 (stop drained 0).live ≡ 0)
    × ((stop drained 0).installed ≡ some 0
        → ((stop drained 0).phase 0 ≢ stopped) × ((stop drained 0).phase 0 ≢ forced))
unfolding publish capture release stop
Reach-drained_example = Reach-drained (stop drained 0) 0 (
    next
      (next
        (next (next (next here (publishes start)) (captures (publish start) 0 refl))
          (publishes used))
        (releases (publish used) 0 (omega arith)))
      (stops drained 0 refl refl))

abbrev wifi : DefaultRoute
wifi = record { interface = codes "wlan0"; gateway = codes "0102a8c0"; metric = 600 }

abbrev wired : DefaultRoute
wired = record { interface = codes "eth0"; gateway = codes "0100a8c0"; metric = 100 }

preferred-perm_example : preferred (wifi ∷ wired ∷ []) ≡ preferred (wired ∷ wifi ∷ [])
preferred-perm_example =
    preferred-perm (wifi ∷ wired ∷ []) (wired ∷ wifi ∷ []) (Perm.swap wired wifi [])

lowest : min_metric (wired ∷ []) ≡ some 100
unfolding min_metric
lowest = refl

abbrev home : EgressSignature
home = record { ipv4 = wifi ∷ []; ipv6 = [] }

abbrev office : EgressSignature
office = record { ipv4 = wired ∷ []; ipv6 = [] }

-- Newest first.
abbrev roaming : History
roaming = (office, 10) ∷ (home, 0) ∷ []

delivered : (Observer.observe (observer 15 60 roaming) office 30).1 ≡ some office
unfolding Observer.observe observer Observer.new Observer.signature_eq route_cmp text_cmp
    has_default_route
delivered = refl

observe-Debounced_example : Debounced 15 office 30 roaming office
observe-Debounced_example = observe-Debounced 15 60 roaming office 30 office delivered

delivery_times-Spaced_example : Spaced 60 (delivery_times 15 60 ((office, 30) ∷ roaming))
delivery_times-Spaced_example = delivery_times-Spaced 15 60 ((office, 30) ∷ roaming)
