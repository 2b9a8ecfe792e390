-- ===== src/Host/Discovery.antt =====
-- pkg/host/peer_discovery.go: the addresses of the bootstrap peers. A string is a list of bytes; the
-- network libraries answer through `Net`.
pub mod Ordered
mod Tests
use shinzo_host_client.Prelude.{
  ℕ, zero, suc, ◌+◌, ◌-◌, Bool, true, false, not, ◌||◌, Option, none, some, List, [], ◌∷◌, ◌++◌,
  ◌==◌, nat_eq, if◌then◌else◌, length, take, drop, Map, lookup, insert, contains,
}
use shinzo_host_client.Prelude.Bytes.{bytes_eq, codes, has_prefix}
use shinzo_host_client.Prelude.Results.{Result, ok, err, ◌>>=◌, or_error}
use shinzo_host_client.Pruner.DocId.{Bytes}

pub data DiscoveryError : Type 0 where
  invalid_multiaddr invalid_ip_address no_discovery_host : DiscoveryError
  no_peer_id_mismatch_info : DiscoveryError
  invalid_peer_id : Bytes → DiscoveryError

-- How a dial under a wrong peer ID ends: it succeeds, or fails with the actual ID where the error has a
-- typed mismatch, and its text.
pub data Dialed (PeerId : Type 0) : Type 0 where
  matched : Dialed PeerId
  mismatched : PeerId → Dialed PeerId
  failed : Bytes → Dialed PeerId

-- `parse_ip` tells whether the address is an IPv4 one.
pub record Net (Multiaddr PeerId : Type 0) : Type 0 where
  pub trim_space : Bytes → Bytes
  pub new_multiaddr : Bytes → Option Multiaddr
  pub split_host_port : Bytes → Option (Bytes × Bytes)
  pub parse_ip : Bytes → Option Bool
  pub protocols : Multiaddr → List ℕ
  pub p_p2p : ℕ
  pub show : Multiaddr → Bytes
  pub new_host : Bool
  pub bogus_peer_id : PeerId
  pub connect : Multiaddr → Dialed PeerId
  pub decode : Bytes → Option PeerId
  pub show_peer_id : PeerId → Bytes

unfoldable pub default_p2p_port : Bytes
default_p2p_port = codes "9171"

unbracketed_left : Bytes → Bytes
unbracketed_left s = if has_prefix s (codes "[") then drop 1 s else s

unbracketed_right : Bytes → Bytes
unbracketed_right [] = []
unbracketed_right (c ∷ []) = if c == b']' then [] else c ∷ []
unbracketed_right (c ∷ d ∷ s) = c ∷ unbracketed_right (d ∷ s)

-- What stands behind the first occurrence of a part.
after_first : Bytes → Bytes → Option Bytes
after_first part [] = if has_prefix [] part then some [] else none
after_first part (c ∷ s) =
    let later = after_first part s in
    if has_prefix (c ∷ s) part then some (drop (length part) (c ∷ s)) else later

-- What stands before the first occurrence of a byte.
before_first : ℕ → Bytes → Bytes
before_first delim [] = []
before_first delim (c ∷ s) = let rest = before_first delim s in if c == delim then [] else c ∷ rest

module _ {Multiaddr PeerId : Type 0} (net : Net Multiaddr PeerId) where
  open net use {
    trim_space, new_multiaddr, split_host_port, parse_ip, protocols, p_p2p, show, new_host,
    bogus_peer_id, connect, decode, show_peer_id,
  }

  unfoldable pub build_multiaddr : Bytes → Bytes → Result DiscoveryError Multiaddr
  build_multiaddr host port = do
    is_ip4 ← or_error invalid_ip_address (parse_ip host)
    or_error invalid_multiaddr (
        new_multiaddr
          ((if is_ip4 then codes "/ip4/" else codes "/ip6/") ++ host ++ codes "/tcp/" ++ port))

  from_host : Bytes → Option (Bytes × Bytes) → Result DiscoveryError Multiaddr
  unfolding build_multiaddr unbracketed_left unbracketed_right default_p2p_port
  from_host addr (some (host, port)) = build_multiaddr host port
  from_host addr none = build_multiaddr (unbracketed_right (unbracketed_left addr)) default_p2p_port

  unfoldable pub normalize_to_multiaddr : Bytes → Result DiscoveryError Multiaddr
  unfolding from_host
  normalize_to_multiaddr addr =
      if has_prefix addr (codes "/")
      then or_error invalid_multiaddr (new_multiaddr addr)
      else from_host addr (split_host_port addr)

  unfoldable pub has_peer_id : Multiaddr → Bool
  has_peer_id maddr = contains (protocols maddr) p_p2p

  cut_at_delims : Bytes → Bytes
  unfolding before_first
  cut_at_delims s =
      before_first b')'
        (before_first b'\n' (before_first b' ' (before_first b',' (before_first b'.' s))))

  decoded : Bytes → Result DiscoveryError PeerId
  decoded s = or_error (invalid_peer_id s) (decode s)

  unfoldable pub extract_peer_id_from_mismatch_string : Bytes → Result DiscoveryError PeerId
  unfolding after_first cut_at_delims decoded
  extract_peer_id_from_mismatch_string msg = do
    after ← or_error no_peer_id_mismatch_info (after_first (codes "but remote key matches ") msg)
    decoded (trim_space (cut_at_delims after))

  full_address : Multiaddr → PeerId → Bytes
  full_address maddr id = show maddr ++ codes "/p2p/" ++ show_peer_id id

  from_dial : Multiaddr → Dialed PeerId → Result DiscoveryError Bytes
  unfolding full_address extract_peer_id_from_mismatch_string
  from_dial maddr matched = ok (full_address maddr bogus_peer_id)
  from_dial maddr (mismatched id) = ok (full_address maddr id)
  from_dial maddr (failed msg) = do
    id ← extract_peer_id_from_mismatch_string msg
    ok (full_address maddr id)

  unfoldable pub discover_peer_id : Multiaddr → Result DiscoveryError Bytes
  unfolding from_dial
  discover_peer_id maddr =
      if new_host then from_dial maddr (connect maddr) else err no_discovery_host

  -- An address whose ID is not discovered is taken without one.
  or_without : Multiaddr → Result DiscoveryError Bytes → Bytes
  or_without maddr (ok full) = full
  or_without maddr (err e) = show maddr

  normalized : Result DiscoveryError Multiaddr → Option Bytes
  unfolding or_without has_peer_id discover_peer_id
  normalized (err e) = none
  normalized (ok maddr) =
      some (if has_peer_id maddr then show maddr else or_without maddr (discover_peer_id maddr))

  -- The address that a peer of the configuration yields, if it yields one.
  unfoldable pub resolved : Bytes → Option Bytes
  unfolding normalized normalize_to_multiaddr
  resolved peer =
      if trim_space peer == [] then none else normalized (normalize_to_multiaddr (trim_space peer))

  cons_result : ℕ → Option Bytes → List (ℕ × Bytes) → List (ℕ × Bytes)
  cons_result i none results = results
  cons_result i (some addr) results = (i, addr) ∷ results

  -- The results with their indices, in the order of the configuration.
  unfoldable pub results_from : ℕ → List Bytes → List (ℕ × Bytes)
  unfolding cons_result resolved
  results_from i [] = []
  results_from i (peer ∷ peers) = cons_result i (resolved peer) (results_from (suc i) peers)

index_map : List (ℕ × Bytes) → Map ℕ Bytes → Map ℕ Bytes
index_map [] m = m
index_map ((i, addr) ∷ results) m = index_map results (insert i addr m)

cons_addr : Option Bytes → List Bytes → List Bytes
cons_addr none addrs = addrs
cons_addr (some addr) addrs = addr ∷ addrs

sorted_from : ℕ → List Bytes → Map ℕ Bytes → List Bytes
unfolding cons_addr
sorted_from i [] m = []
sorted_from i (peer ∷ peers) m = cons_addr (lookup i m) (sorted_from (suc i) peers m)

unfoldable pub make_sorted_array : List (ℕ × Bytes) → List Bytes → List Bytes
unfolding sorted_from index_map
make_sorted_array results peers = sorted_from 0 peers (index_map results [])
