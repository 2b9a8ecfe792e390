-- ===== src/Host/Discovery/Tests.antt =====
-- The addresses of three bootstrap peers, of which the last is discovered first.
use shinzo_host_client.Prelude.{ℕ, ◌≡◌, refl, true, none, some, List, [], ◌∷◌, nat_eq, contains}
use shinzo_host_client.Prelude.Bytes.{codes, has_prefix}
use shinzo_host_client.Pruner.DocId.{Bytes}
use shinzo_host_client.Host.Discovery.{
  Net, mismatched, resolved, normalize_to_multiaddr, has_peer_id, discover_peer_id, results_from,
  make_sorted_array,
}
use shinzo_host_client.Host.Discovery.Ordered.{
  Appended, nothing, result, put_at, addresses, make_sorted_array-addresses,
}

-- A multiaddr and a peer ID are their texts.
abbrev a_net : Net Bytes Bytes
a_net = record {
  trim_space = λ s. s;
  new_multiaddr = λ s. some s;
  split_host_port = λ s. none;
  parse_ip = λ s. some true;
  protocols = λ m. 4 ∷ [];
  p_p2p = 421;
  show = λ m. m;
  new_host = true;
  bogus_peer_id = codes "bogus";
  connect = λ m. mismatched (codes "id");
  decode = λ s. some s;
  show_peer_id = λ id. id;
}

abbrev peers : List Bytes
peers = codes "1.2.3.4" ∷ [] ∷ codes "/ip4/5" ∷ []

abbrev shuffled : List (ℕ × Bytes)
shuffled = put_at 1 (0, codes "/ip4/1.2.3.4/tcp/9171/p2p/id") ((2, codes "/ip4/5/p2p/id") ∷ [])

appended : Appended (results_from a_net 0 peers) shuffled
unfolding results_from resolved normalize_to_multiaddr has_peer_id discover_peer_id has_prefix
    contains
appended = result 1 (result 0 nothing)

make_sorted_array-addresses_example : make_sorted_array shuffled peers ≡ addresses a_net peers
make_sorted_array-addresses_example = make_sorted_array-addresses a_net peers shuffled appended

in_order : addresses a_net peers ≡ codes "/ip4/1.2.3.4/tcp/9171/p2p/id" ∷ codes "/ip4/5/p2p/id" ∷ []
unfolding addresses resolved normalize_to_multiaddr has_peer_id discover_peer_id has_prefix contains
in_order = refl
