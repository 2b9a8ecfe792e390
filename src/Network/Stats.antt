-- ===== src/Network/Stats.antt =====
-- The statistics of the peers, and what stopping the network leaves: network_handler.go.
use shinzo_host_client.Prelude.{
  ℕ, suc, ◌+◌, ◌≡◌, ◌∙◌, refl, false, not, ◌&&◌, some, List, [], ◌∷◌, length, Map, lookup,
  if◌then◌else◌, ◌==◌, ==_iff, arith, Bool-cases, inl, inr,
}
use shinzo_host_client.Prelude.Bytes.{bytes_eq}
use shinzo_host_client.Pruner.DocId.{Bytes}
use shinzo_host_client.Network.{
  ConnectionState, disconnected, connecting, connected, reconnecting, failed, PeerState,
  NetworkHandler, is_connected, lose, still_connected, check_peers, check_peer_health,
}
use shinzo_host_client.Network.Peers.{
  ConnectionStats, count_state, count_states, get_connection_stats,
}

abbrev all_counted : ConnectionStats → ℕ
all_counted s = s.connected_peers + s.connecting_peers + s.disconnected_peers + s.failed_peers

count_state-all :
    (c : ConnectionState) (s : ConnectionStats)
    → all_counted (count_state c s) ≡ suc (all_counted s)
unfolding count_state
count_state-all connected s = omega arith
count_state-all connecting s = omega arith
count_state-all reconnecting s = omega arith
count_state-all failed s = omega arith
count_state-all disconnected s = omega arith

count_states-all :
    (peers : Map Bytes PeerState) (s : ConnectionStats)
    → all_counted (count_states peers s) ≡ length peers + all_counted s
unfolding count_states
count_states-all [] s = omega arith
count_states-all ((addr, p) ∷ peers) s =
    omega (arith, count_state-all p.state s, count_states-all peers (count_state p.state s))

count_state-total :
    (c : ConnectionState) (s : ConnectionStats) → (count_state c s).total_peers ≡ s.total_peers
unfolding count_state
count_state-total connected s = refl
count_state-total connecting s = refl
count_state-total reconnecting s = refl
count_state-total failed s = refl
count_state-total disconnected s = refl

count_states-total :
    (peers : Map Bytes PeerState) (s : ConnectionStats)
    → (count_states peers s).total_peers ≡ s.total_peers
unfolding count_states
count_states-total [] s = refl
count_states-total ((addr, p) ∷ peers) s =
    count_states-total peers (count_state p.state s) ∙ count_state-total p.state s

-- The statistics count every peer under exactly one of their four headings.
pub get_connection_stats-total :
    (h : NetworkHandler)
    → (get_connection_stats h).total_peers ≡ all_counted (get_connection_stats h)
unfolding get_connection_stats
get_connection_stats-total h =
    omega (arith, count_states-total h.peers _, count_states-all h.peers _)

lost : (p : PeerState) → is_connected (lose "peer disconnected" p) ≡ false
unfolding lose is_connected
lost p = refl

checked : List Bytes → Bytes → PeerState → PeerState
checked active addr p =
    if is_connected p && not (still_connected active addr) then lose "peer disconnected" p else p

checked-connected :
    (active : List Bytes) (addr : Bytes) (p : PeerState)
    → is_connected (checked active addr p) ≡ (is_connected p && still_connected active addr)
unfolding checked
checked-connected active addr p = ground (arith, lost p)

check_peers-checked :
    (active : List Bytes) (addr : Bytes) (p : PeerState) (peers : Map Bytes PeerState)
    → check_peers active ((addr, p) ∷ peers)
      ≡ (addr, checked active addr p) ∷ check_peers active peers
unfolding check_peers checked
check_peers-checked active addr p peers =
    elim (Bool-cases (is_connected p && not (still_connected active addr))) [
      | inl is_lost ↦ rw is_lost refl
      | inr holds ↦ rw holds refl
    ]

lookup-check_peers :
    (active : List Bytes) (addr : Bytes) (p : PeerState) (peers : Map Bytes PeerState)
    → lookup addr peers ≡ some p
    → lookup addr (check_peers active peers) ≡ some (checked active addr p)
unfolding lookup
lookup-check_peers active addr p [] e = absurd (ground arith)
lookup-check_peers active addr p ((other, r) ∷ peers) e =
    rw (check_peers-checked active other r peers) (elim (Bool-cases (other == addr)) [
      | inl same ↦
          let key : other ≡ addr = (==_iff other addr).0 same in
          let value : r ≡ p = ground (arith, e, same) in rw same (rw (key, value) refl)
      | inr differs ↦
          rw differs (lookup-check_peers active addr p peers (ground (arith, e, differs)))
    ])

-- After a check against the active addresses, a peer is connected exactly when it was and its address
-- or its ID stands among the active addresses and their IDs.
pub check_peer_health-connected :
    (active : List Bytes) (h : NetworkHandler) (addr : Bytes) (p : PeerState)
    → lookup addr h.peers ≡ some p
    → (q : PeerState) × (lookup addr (check_peer_health (some active) h).peers ≡ some q)
      × (is_connected q ≡ (is_connected p && still_connected active addr))
unfolding check_peer_health
check_peer_health-connected active h addr p e = (
  checked active addr p,
  lookup-check_peers active addr p h.peers e,
  checked-connected active addr p,
)
