-- ===== src/Network/Peers.antt =====
-- pkg/defradb/network_handler.go: reconnection, and the peers of the handler with their statistics.
-- The reconnections that the source runs side by side run one after another.
use shinzo_host_client.Prelude.{
  ℕ, suc, Bool, true, false, Option, none, some, List, [], ◌∷◌, if◌then◌else◌, length, Map, lookup,
  insert, delete,
}
use shinzo_host_client.Prelude.Bytes.{bytes_eq}
use shinzo_host_client.Pruner.DocId.{Bytes}
use shinzo_host_client.Network.{
  ConnectionState, disconnected, connecting, connected, reconnecting, failed, PeerState,
  NetworkHandler, Dialing, is_connected, connect_peer, lose, new_peer,
}

-- Whether the loop picks the peer for reconnection.
unfoldable pub is_lost : ConnectionState → Bool
is_lost disconnected = true
is_lost failed = true
is_lost connecting = false
is_lost connected = false
is_lost reconnecting = false

lost_addresses : Map Bytes PeerState → List Bytes
unfolding is_lost
lost_addresses [] = []
lost_addresses ((addr, p) ∷ peers) =
    let rest = lost_addresses peers in if is_lost p.state then addr ∷ rest else rest

-- A peer that is connected or on its way is left alone.
reconnect : Dialing → NetworkHandler → Bytes → Option PeerState → NetworkHandler
unfolding is_lost connect_peer
reconnect dialing h addr none = h
reconnect dialing h addr (some p) =
    if is_lost p.state
    then record h {
      peers =
          insert addr
            (connect_peer dialing h.config.max_retries (record p { state = reconnecting })).1
            h.peers;
    }
    else h

unfoldable pub attempt_reconnect : Dialing → Bytes → NetworkHandler → NetworkHandler
unfolding reconnect
attempt_reconnect dialing addr h = reconnect dialing h addr (lookup addr h.peers)

reconnect_each : (Bytes → Dialing) → List Bytes → NetworkHandler → NetworkHandler
unfolding attempt_reconnect
reconnect_each dialing [] h = h
reconnect_each dialing (addr ∷ addrs) h =
    reconnect_each dialing addrs (attempt_reconnect (dialing addr) addr h)

unfoldable pub reconnect_disconnected_peers : (Bytes → Dialing) → NetworkHandler → NetworkHandler
unfolding lost_addresses reconnect_each
reconnect_disconnected_peers dialing h = reconnect_each dialing (lost_addresses h.peers) h

lose_all : Map Bytes PeerState → Map Bytes PeerState
unfolding lose is_connected
lose_all [] = []
lose_all ((addr, p) ∷ peers) =
    (addr, if is_connected p then lose "P2P mesh lost - no active peers" p else p) ∷ lose_all peers

unfoldable pub force_reconnect_all : (Bytes → Dialing) → NetworkHandler → NetworkHandler
unfolding lose_all reconnect_disconnected_peers
force_reconnect_all dialing h =
    reconnect_disconnected_peers dialing (record h { peers = lose_all h.peers })

pub data PeerError : Type 0 where
  no_peer_found peer_already_added : PeerError

add_new : Dialing → Bytes → Option PeerState → NetworkHandler → Option PeerError × NetworkHandler
unfolding attempt_reconnect new_peer
add_new dialing addr (some p) h = (some peer_already_added, h)
add_new dialing addr none h =
    let added = record h { peers = insert addr (new_peer addr) h.peers } in
    (none, if h.network_active then attempt_reconnect dialing addr added else added)

unfoldable pub add_peer : Dialing → Bytes → NetworkHandler → Option PeerError × NetworkHandler
unfolding add_new
add_peer dialing addr h = add_new dialing addr (lookup addr h.peers) h

remove_known : Bytes → Option PeerState → NetworkHandler → Option PeerError × NetworkHandler
remove_known addr none h = (some no_peer_found, h)
remove_known addr (some p) h = (none, record h { peers = delete addr h.peers })

unfoldable pub remove_peer : Bytes → NetworkHandler → Option PeerError × NetworkHandler
unfolding remove_known
remove_peer addr h = remove_known addr (lookup addr h.peers) h

connected_addresses : Map Bytes PeerState → List Bytes
unfolding is_connected
connected_addresses [] = []
connected_addresses ((addr, p) ∷ peers) =
    let rest = connected_addresses peers in if is_connected p then addr ∷ rest else rest

unfoldable pub get_connected_peers : NetworkHandler → List Bytes
unfolding connected_addresses
get_connected_peers h = connected_addresses h.peers

unfoldable pub get_peer_state : Bytes → NetworkHandler → Option PeerState
get_peer_state addr h = lookup addr h.peers

pub record ConnectionStats : Type 0 where
  pub total_peers : ℕ
  pub connected_peers : ℕ
  pub connecting_peers : ℕ
  pub disconnected_peers : ℕ
  pub failed_peers : ℕ
  pub network_active : Bool
  pub host_running : Bool

unfoldable pub count_state : ConnectionState → ConnectionStats → ConnectionStats
count_state connected s = record s { connected_peers = suc s.connected_peers }
count_state connecting s = record s { connecting_peers = suc s.connecting_peers }
count_state reconnecting s = record s { connecting_peers = suc s.connecting_peers }
count_state failed s = record s { failed_peers = suc s.failed_peers }
count_state disconnected s = record s { disconnected_peers = suc s.disconnected_peers }

unfoldable pub count_states : Map Bytes PeerState → ConnectionStats → ConnectionStats
unfolding count_state
count_states [] s = s
count_states ((addr, p) ∷ peers) s = count_states peers (count_state p.state s)

unfoldable pub get_connection_stats : NetworkHandler → ConnectionStats
unfolding count_states
get_connection_stats h = count_states h.peers (record {
  total_peers = length h.peers;
  connected_peers = 0;
  connecting_peers = 0;
  disconnected_peers = 0;
  failed_peers = 0;
  network_active = h.network_active;
  host_running = h.host_running;
})
