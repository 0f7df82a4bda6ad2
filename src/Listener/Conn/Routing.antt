-- ===== src/Listener/Conn/Routing.antt =====
-- Where a connection of src/listener.rs goes, and who is charged for it.
use causeway.Prelude.{ℕ, ◌≡◌, refl, ◌⊎◌, false, Option, none, some, List, [], ◌∷◌, arith}
use causeway.Prelude.Text.{Text, is_text}
use causeway.Peek.{IsLetter}
use causeway.Listener.Traffic.{TrafficState, add_foreign}
use causeway.Listener.Conn.{
  SocketAddr, ClassRoute, PeekOutcome, peeked, peek_failed, peek_timed_out, ConnectOutcome, piped,
  handle_conn, account,
}

-- Which upstream a first byte may lead to.
abbrev pub Leads : ClassRoute → ℕ → SocketAddr → Type 0
Leads route first a =
    ((first ≡ 0x05) × (route.socks_upstream ≡ some a))
    ⊎ (IsLetter first × (route.http_upstream ≡ some a))

-- A connection is piped only after a first byte was seen, only to the upstream that the route has
-- for the protocol of that byte, and then it holds the lease of the installed path.
pub piped_inversion :
    (traffic : TrafficState) (route : ClassRoute) (p : PeekOutcome) (c : ConnectOutcome)
    (copied : Option (ℕ × ℕ)) (a : SocketAddr) (up down : ℕ)
    → let h = handle_conn traffic route p c copied in
      h.ending ≡ piped a up down
      → (first : ℕ) × (more : List ℕ) × (p ≡ peeked (first ∷ more))
        × Leads route first a
        × (copied ≡ some (up, down))
        × (h.lease ≡ route.path_connections)
unfolding handle_conn
piped_inversion traffic route (peeked []) c copied a up down h = cc
piped_inversion traffic route (peeked (first ∷ more)) c copied a up down h =
    (first, more, refl, ground arith, ground arith, ground arith)
piped_inversion traffic route peek_failed c copied a up down h = cc
piped_inversion traffic route peek_timed_out c copied a up down h = cc

account_foreign :
    (traffic : TrafficState) (route : ClassRoute) (name : Text) (up down : ℕ)
    → is_text traffic.subscription route.traffic_subscription ≡ false
    → account traffic route name up down ≡ traffic
unfolding account
account_foreign traffic route [] up down h = refl
account_foreign traffic route (c ∷ cs) up down h = add_foreign traffic _ _ up down h

-- A connection that was routed under another subscription than the selected one changes no
-- counter, whatever becomes of it; and so does one that is not piped.
pub handle_conn_uncharged :
    (traffic : TrafficState) (route : ClassRoute) (p : PeekOutcome) (c : ConnectOutcome)
    (copied : Option (ℕ × ℕ))
    → (is_text traffic.subscription route.traffic_subscription ≡ false) ⊎ (copied ≡ none)
    → (handle_conn traffic route p c copied).traffic ≡ traffic
unfolding handle_conn
handle_conn_uncharged traffic route p c none h = ground arith
handle_conn_uncharged traffic route p c (some (up, down)) h =
    ground (arith, account_foreign traffic route route.node_name up down)
