-- ===== src/Network/Tests.antt =====
-- Runs of the peers' connections at concrete data.
use shinzo_host_client.Prelude.{
  ◌+◌, ◌≡◌, refl, true, false, none, some, [], ◌∷◌, ◌==◌, nat_eq, if◌then◌else◌,
}
use shinzo_host_client.Prelude.Int.{pos}
use shinzo_host_client.Prelude.Bytes.{bytes_eq}
use shinzo_host_client.Pruner.DocId.{Bytes}
use shinzo_host_client.Network.{
  ConnectionState, PeerState, NetworkHandler, Dialing, rounds_of, connect_peer, extract_peer_id,
}
use shinzo_host_client.Network.Peers.{get_connection_stats}
use shinzo_host_client.Network.Ends.{Ends, connect_peer-Ends}
use shinzo_host_client.Network.Stats.{get_connection_stats-total}

abbrev an_address : Bytes
an_address = b'x' ∷ b'/' ∷ b'p' ∷ b'2' ∷ b'p' ∷ b'/' ∷ b'i' ∷ []

abbrev a_peer : PeerState
a_peer = record {
  address = an_address;
  state = ConnectionState.connected;
  last_attempt = 1;
  retry_count = 1;
  last_error = none;
  connected_at = 2;
}

abbrev a_handler : NetworkHandler
a_handler = record {
  config = record {
    max_retries = pos 5;
    retry_base_delay_ms = pos 1000;
    reconnect_interval_ms = pos 60000;
    enable_auto_reconnect = true;
  };
  host_running = true;
  network_active = true;
  peers = (an_address, a_peer) ∷ [];
  reconnects = true;
}

abbrev a_dialing : Dialing
a_dialing = record {
  dial = λ n. if n == 2 then none else some "refused";
  clock = λ n. n;
  done_after = λ n. false;
  done_waiting = λ n. false;
}

id_of_address : extract_peer_id an_address ≡ b'i' ∷ []
unfolding extract_peer_id
id_of_address = refl

connect_peer-Ends_example :
    Ends a_dialing 0
      (rounds_of a_dialing (pos 5))
      (connect_peer a_dialing (pos 5) a_peer).0
      (connect_peer a_dialing (pos 5) a_peer).1
connect_peer-Ends_example = connect_peer-Ends a_dialing (pos 5) a_peer

get_connection_stats-total_example :
    (get_connection_stats a_handler).total_peers
    ≡ (get_connection_stats a_handler).connected_peers
      + (get_connection_stats a_handler).connecting_peers
      + (get_connection_stats a_handler).disconnected_peers
      + (get_connection_stats a_handler).failed_peers
get_connection_stats-total_example = get_connection_stats-total a_handler
