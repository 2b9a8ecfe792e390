-- ===== src/Network.antt =====
-- pkg/defradb/network_handler.go and network_state.go: the connections to peers. A connection attempt
-- runs to its end as one step, although the source gives the lock back while it dials and waits. The
-- zero time is 0.
pub mod Peers
pub mod Ends
pub mod Stats
mod Tests
use shinzo_host_client.Prelude.{
  ℕ, zero, suc, ◌+◌, ◌-◌, String, Bool, true, false, not, ◌&&◌, ◌||◌, Option, none, some, List, [],
  ◌∷◌, ◌++◌, ◌==◌, nat_eq, string_eq, if◌then◌else◌, length, drop, take, Map, lookup, insert,
  delete, contains,
}
use shinzo_host_client.Prelude.Int.{ℤ, pos, int_eq}
use shinzo_host_client.Prelude.Bytes.{bytes_eq}
use shinzo_host_client.Pruner.DocId.{Bytes}

pub data ConnectionState : Type 0 where
  disconnected connecting connected reconnecting failed : ConnectionState

unfoldable pub state_name : ConnectionState → String
state_name disconnected = "DISCONNECTED"
state_name connecting = "CONNECTING"
state_name connected = "CONNECTED"
state_name reconnecting = "RECONNECTING"
state_name failed = "FAILED"

pub record PeerState : Type 0 where
  pub address : Bytes
  pub state : ConnectionState
  pub last_attempt : ℕ
  pub retry_count : ℕ
  pub last_error : Option String
  pub connected_at : ℕ

unfoldable pub is_connected : PeerState → Bool
is_connected p = elim p.state [
  | connected ↦ true
  | disconnected ↦ false
  | connecting ↦ false
  | reconnecting ↦ false
  | failed ↦ false
]

unfoldable pub is_reachable : PeerState → Bool
is_reachable p = elim p.state [
  | failed ↦ false
  | disconnected ↦ true
  | connecting ↦ true
  | connected ↦ true
  | reconnecting ↦ true
]

pub record P2pConfig : Type 0 where
  pub max_retries : ℤ
  pub retry_base_delay_ms : ℤ
  pub reconnect_interval_ms : ℤ
  pub enable_auto_reconnect : Bool

pub record NetworkHandler : Type 0 where
  pub config : P2pConfig
  pub host_running : Bool
  pub network_active : Bool
  pub peers : Map Bytes PeerState
  pub reconnects : Bool  -- whether the reconnection loop runs

unfoldable pub new_peer : Bytes → PeerState
new_peer addr = record {
  address = addr;
  state = disconnected;
  last_attempt = 0;
  retry_count = 0;
  last_error = none;
  connected_at = 0;
}

bootstrap : List Bytes → Map Bytes PeerState → Map Bytes PeerState
unfolding new_peer
bootstrap [] peers = peers
bootstrap (addr ∷ addrs) peers = bootstrap addrs (insert addr (new_peer addr) peers)

unless_zero : ℤ → ℤ → ℤ
unless_zero n value = if value == pos 0 then n else value

unfoldable pub new_network_handler : List Bytes → P2pConfig → NetworkHandler
unfolding bootstrap unless_zero
new_network_handler bootstrap_peers cfg = record {
  config = record cfg {
    max_retries = unless_zero (pos 5) cfg.max_retries;
    retry_base_delay_ms = unless_zero (pos 1000) cfg.retry_base_delay_ms;
    reconnect_interval_ms = unless_zero (pos 60000) cfg.reconnect_interval_ms;
  };
  host_running = true;
  network_active = false;
  peers = bootstrap bootstrap_peers [];
  reconnects = false;
}

-- What the attempts meet: the answer of a dial, the clock at it, and whether the context is done
-- after it or while the delay runs.
pub record Dialing : Type 0 where
  pub dial : ℕ → Option String
  pub clock : ℕ → ℕ
  pub done_after : ℕ → Bool
  pub done_waiting : ℕ → Bool

module _ (dialing : Dialing) where
  open dialing use {dial, clock, done_after, done_waiting}

  -- What follows a dial; `again` is the rest of the loop.
  dialed : (PeerState → Bool × PeerState) → ℕ → Option String → PeerState → Bool × PeerState
  dialed again attempt none p =
      (true, record p { state = connected; connected_at = clock attempt; last_error = none })
  dialed again attempt (some e) p =
      let noted = record p { last_error = some e } in
      let next = again noted in
      if done_after attempt
      then (false, record noted { state = disconnected })
      else if done_waiting attempt
      then (false, record noted { state = disconnected })
      else next

  unfoldable pub connect_rounds : ℕ → ℕ → PeerState → Bool × PeerState
  unfolding dialed
  connect_rounds zero attempt p = (false, record p { state = failed })
  connect_rounds (suc left) attempt p =
      dialed (connect_rounds left (suc attempt)) attempt (dial attempt)
        (record p { last_attempt = clock attempt; retry_count = suc attempt })

  -- A negative number of retries is none.
  unfoldable pub rounds_of : ℤ → ℕ
  rounds_of (pos n) = n
  rounds_of _ = 0

  -- The attempts to connect to a peer, and whether one succeeds.
  unfoldable pub connect_peer : ℤ → PeerState → Bool × PeerState
  unfolding connect_rounds rounds_of
  connect_peer max_retries p =
      connect_rounds (rounds_of max_retries) 0 (record p { state = connecting; retry_count = 0 })

-- The attempts for each address.
unfoldable pub connect_all : (Bytes → Dialing) → ℤ → Map Bytes PeerState → Map Bytes PeerState
unfolding connect_peer
connect_all dialing max_retries [] = []
connect_all dialing max_retries ((addr, p) ∷ peers) =
    (addr, (connect_peer (dialing addr) max_retries p).1) ∷ connect_all dialing max_retries peers

unfoldable pub start_network : (Bytes → Dialing) → NetworkHandler → NetworkHandler
unfolding connect_all
start_network dialing h = if h.network_active then h else record h {
  peers = connect_all dialing h.config.max_retries h.peers;
  network_active = true;
  reconnects = h.config.enable_auto_reconnect;
}

unfoldable pub disconnect : PeerState → PeerState
disconnect p = record p { state = disconnected; connected_at = 0 }

unfoldable pub disconnect_all : Map Bytes PeerState → Map Bytes PeerState
unfolding disconnect
disconnect_all [] = []
disconnect_all ((addr, p) ∷ peers) = (addr, disconnect p) ∷ disconnect_all peers

unfoldable pub stop_network : NetworkHandler → NetworkHandler
unfolding disconnect_all
stop_network h =
    if not h.network_active
    then h
    else record h { peers = disconnect_all h.peers; network_active = false; reconnects = false }

unfoldable pub toggle_network : (Bytes → Dialing) → NetworkHandler → NetworkHandler
unfolding start_network stop_network
toggle_network dialing h = if h.network_active then stop_network h else start_network dialing h

-- "/p2p/"
abbrev p2p_prefix : Bytes
p2p_prefix = b'/' ∷ b'p' ∷ b'2' ∷ b'p' ∷ b'/' ∷ []

-- The loop from the last place to the first one, this many of which are left.
id_from : ℕ → Bytes → Bytes
id_from zero multiaddr = []
id_from (suc i) multiaddr =
    let rest = id_from i multiaddr in
    if take 5 (drop i multiaddr) == p2p_prefix then drop (i + 5) multiaddr else rest

unfoldable pub extract_peer_id : Bytes → Bytes
unfolding id_from
extract_peer_id multiaddr = id_from (suc (length multiaddr) - 5) multiaddr

-- The keys of `connectedPeers`: the active addresses and their IDs.
connected_names : List Bytes → List Bytes
unfolding extract_peer_id
connected_names [] = []
connected_names (addr ∷ active) =
    let rest = connected_names active in
    let id = extract_peer_id addr in if id == [] then addr ∷ rest else addr ∷ id ∷ rest

unfoldable pub still_connected : List Bytes → Bytes → Bool
unfolding connected_names extract_peer_id
still_connected active addr =
    let id = extract_peer_id addr in
    contains (connected_names active) addr
    || (not (id == []) && contains (connected_names active) id)

-- A connected peer that is lost, for this reason.
unfoldable pub lose : String → PeerState → PeerState
unfolding disconnect
lose reason p = record (disconnect p) { last_error = some reason }

unfoldable pub check_peers : List Bytes → Map Bytes PeerState → Map Bytes PeerState
unfolding still_connected lose is_connected
check_peers active [] = []
check_peers active ((addr, p) ∷ peers) =
    let rest = check_peers active peers in
    if is_connected p && not (still_connected active addr)
    then (addr, lose "peer disconnected" p) ∷ rest
    else (addr, p) ∷ rest

-- `none` is a node without a database, or an error of `ActivePeers`.
unfoldable pub check_peer_health : Option (List Bytes) → NetworkHandler → NetworkHandler
unfolding check_peers
check_peer_health none h = h
check_peer_health (some active) h = record h { peers = check_peers active h.peers }
