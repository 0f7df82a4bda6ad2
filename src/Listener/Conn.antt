-- ===== src/Listener/Conn.antt =====
-- One accepted connection (src/listener.rs, `handle_conn`). What the sockets do is an argument: the
-- peek, the upstream connect and the copy each end one way.
pub mod Routing
use causeway.Prelude.{ℕ, Bool, Option, none, some, List, [], ◌∷◌}
use causeway.Prelude.Text.{Text}
use causeway.Peek.{InboundProto, socks5, http, PeekError, Classified, classify}
use causeway.Listener.Traffic.{TrafficState, add}

pub record SocketAddr : Type 0 where
  pub ip : ℕ
  pub port : ℕ

-- `path_connections` names the counter that it shares.
pub record ClassRoute : Type 0 where
  pub socks_upstream : Option SocketAddr
  pub http_upstream : Option SocketAddr
  pub node_name : Text
  pub generation : ℕ
  pub path_connections : Option ℕ
  pub traffic_subscription : Text

-- `inbound.peek` under its timeout.
pub data PeekOutcome : Type 0 where
  peeked : List ℕ → PeekOutcome
  peek_failed : PeekOutcome
  peek_timed_out : PeekOutcome

pub data ConnectOutcome : Type 0 where
  connected connect_failed connect_timed_out : ConnectOutcome

-- How the connection ended. `sent_502` and `closed` are the two answers when no path is installed.
pub data Ending : Type 0 where
  peek_error : PeekError → Ending
  io_error : Ending
  sent_502 : Ending
  closed : Ending
  upstream_timed_out : SocketAddr → Ending
  piped : SocketAddr → ℕ → ℕ → Ending

pub record Handled : Type 0 where
  pub ending : Ending
  pub traffic : TrafficState
  pub lease : Option ℕ

abbrev pub upstream_of : ClassRoute → InboundProto → Option SocketAddr
upstream_of route socks5 = route.socks_upstream
upstream_of route http = route.http_upstream

-- `upstream.and_then(|_| route.path_connections…)`
abbrev pub lease_of : ClassRoute → Option SocketAddr → Option ℕ
lease_of route none = none
lease_of route (some a) = route.path_connections

unrouted : InboundProto → Ending
unrouted http = sent_502
unrouted socks5 = closed

-- `if !node_name.is_empty() { traffic.add(…) }`
account : TrafficState → ClassRoute → Text → ℕ → ℕ → TrafficState
account traffic route [] up down = traffic
account traffic route (c ∷ cs) up down = add traffic route.traffic_subscription (c ∷ cs) up down

-- `copied` is the byte counts of `copy_bidirectional`, if it succeeds.
relay :
    TrafficState → ClassRoute → SocketAddr → ConnectOutcome → Option (ℕ × ℕ) → Ending × TrafficState
unfolding account
relay traffic route a connect_failed copied = (io_error, traffic)
relay traffic route a connect_timed_out copied = (upstream_timed_out a, traffic)
relay traffic route a connected none = (io_error, traffic)
relay traffic route a connected (some (up, down)) =
    (piped a up down, account traffic route route.node_name up down)

forward :
    TrafficState
    → ClassRoute
    → InboundProto
    → Option SocketAddr
    → ConnectOutcome
    → Option (ℕ × ℕ)
    → Ending × TrafficState
unfolding relay unrouted
forward traffic route p none connection copied = (unrouted p, traffic)
forward traffic route p (some a) connection copied = relay traffic route a connection copied

route_by : TrafficState → ClassRoute → Classified → ConnectOutcome → Option (ℕ × ℕ) → Handled
unfolding forward
route_by traffic route (Classified.rejected e) connection copied = record {
  ending = peek_error e;
  traffic = traffic;
  lease = none;
}
route_by traffic route (Classified.proto p) connection copied =
    let upstream = upstream_of route p in
    let (ending, after) = forward traffic route p upstream connection copied in
    record { ending = ending; traffic = after; lease = lease_of route upstream }

unfoldable pub handle_conn :
    TrafficState → ClassRoute → PeekOutcome → ConnectOutcome → Option (ℕ × ℕ) → Handled
unfolding route_by classify
handle_conn traffic route peek_failed connection copied = record {
  ending = io_error;
  traffic = traffic;
  lease = none;
}
handle_conn traffic route peek_timed_out connection copied = record {
  ending = peek_error PeekError.timeout;
  traffic = traffic;
  lease = none;
}
handle_conn traffic route (peeked []) connection copied = record {
  ending = peek_error PeekError.eof;
  traffic = traffic;
  lease = none;
}
handle_conn traffic route (peeked (first ∷ more)) connection copied =
    route_by traffic route (classify first) connection copied
