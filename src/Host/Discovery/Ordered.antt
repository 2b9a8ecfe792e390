-- ===== src/Host/Discovery/Ordered.antt =====
-- The order of the bootstrap peers: peer_discovery.go.
use shinzo_host_client.Prelude.{
  ℕ, zero, suc, ◌≤◌, ◌<◌, ◌≡◌, ◌∙◌, refl, ap, false, Option, none, some, List, [], ◌∷◌, ◌==◌,
  nat_eq, if◌then◌else◌, Map, lookup, insert, lookup-insert, All, arith,
}
use shinzo_host_client.Prelude.Bytes.{bytes_eq}
use shinzo_host_client.Pruner.DocId.{Bytes}
use shinzo_host_client.Host.Discovery.{
  Net, resolved, cons_result, results_from, index_map, cons_addr, sorted_from, make_sorted_array,
}

-- An element put among others at a place.
abbrev pub put_at : ℕ → ℕ × Bytes → List (ℕ × Bytes) → List (ℕ × Bytes)
put_at n x [] = x ∷ []
put_at zero x (y ∷ ys) = x ∷ y ∷ ys
put_at (suc n) x (y ∷ ys) = y ∷ put_at n x ys

-- The results in the order in which they are appended: each at any place among the others.
pub data Appended : List (ℕ × Bytes) → List (ℕ × Bytes) → Type 0 where
  nothing : Appended [] []
  result :
      {x : ℕ × Bytes} {xs ys : List (ℕ × Bytes)} (n : ℕ)
      → Appended xs ys
      → Appended (x ∷ xs) (put_at n x ys)

-- The address of the last result of an index, or another.
found : ℕ → List (ℕ × Bytes) → Option Bytes → Option Bytes
found j [] default = default
found j ((i, addr) ∷ results) default = found j results (if i == j then some addr else default)

lookup-index_map :
    (j : ℕ) (results : List (ℕ × Bytes)) (m : Map ℕ Bytes)
    → lookup j (index_map results m) ≡ found j results (lookup j m)
unfolding index_map found
lookup-index_map j [] m = refl
lookup-index_map j ((i, addr) ∷ results) m =
    lookup-index_map j results (insert i addr m) ∙ ap (found j results) (lookup-insert i j addr m)

abbrev IsApart : ℕ → List (ℕ × Bytes) → Type 0
IsApart j results = All (λ (r : ℕ × Bytes). (r.0 == j) ≡ false) results

found_apart :
    (j : ℕ) (results : List (ℕ × Bytes)) (default : Option Bytes)
    → IsApart j results
    → found j results default ≡ default
unfolding found
found_apart j [] default h = refl
found_apart j ((i, addr) ∷ results) default (differs, h) =
    rw differs (found_apart j results default h)

put_at-IsApart :
    (j n : ℕ) (x : ℕ × Bytes) (ys : List (ℕ × Bytes))
    → (x.0 == j) ≡ false
    → IsApart j ys
    → IsApart j (put_at n x ys)
put_at-IsApart j n x [] h k = (h, tt)
put_at-IsApart j zero x (y ∷ ys) h (k, ks) = (h, (k, ks))
put_at-IsApart j (suc n) x (y ∷ ys) h (k, ks) = (k, put_at-IsApart j n x ys h ks)

Appended-IsApart : {xs ys : List (ℕ × Bytes)} (j : ℕ) → Appended xs ys → IsApart j xs → IsApart j ys
Appended-IsApart j nothing h = tt
Appended-IsApart j (result {x = x} {ys = ys} n appended) (h, hs) =
    put_at-IsApart j n x ys h (Appended-IsApart j appended hs)

found-put_at :
    (j n : ℕ) (x : ℕ × Bytes) (ys : List (ℕ × Bytes)) (default : Option Bytes)
    → IsApart x.0 ys
    → found j (put_at n x ys) default ≡ found j (x ∷ ys) default
unfolding found
found-put_at j n x [] default h = refl
found-put_at j zero x (y ∷ ys) default h = refl
found-put_at j (suc n) x (y ∷ ys) default (differs, h) =
    found-put_at j n x ys (if y.0 == j then some y.1 else default) h
    ∙ ap (found j ys) (swapped x.0 y.0 differs)
  where
    swapped :
        (a b : ℕ)
        → (b == a) ≡ false
        → (if a == j then some x.1 else (if b == j then some y.1 else default))
          ≡ (if b == j then some y.1 else (if a == j then some x.1 else default))
    swapped a b apart = ground (arith, apart)

-- No two results are of one index.
Unrepeated : List (ℕ × Bytes) → Type 0
Unrepeated [] = Unit
Unrepeated (x ∷ xs) = IsApart x.0 xs × Unrepeated xs

found-Appended :
    {xs ys : List (ℕ × Bytes)} (j : ℕ) (default : Option Bytes)
    → Appended xs ys
    → Unrepeated xs
    → found j ys default ≡ found j xs default
unfolding found Unrepeated
found-Appended j default nothing u = refl
found-Appended j default (result {x = x} {xs = xs} {ys = ys} n appended) (h, u) =
    found-put_at j n x ys default (Appended-IsApart x.0 appended h)
    ∙ found-Appended j (if x.0 == j then some x.1 else default) appended u

module _ {Multiaddr PeerId : Type 0} (net : Net Multiaddr PeerId) where
  -- The addresses that the peers yield, in the order of the configuration.
  unfoldable pub addresses : List Bytes → List Bytes
  unfolding cons_addr
  addresses [] = []
  addresses (peer ∷ peers) = cons_addr (resolved net peer) (addresses peers)

  results_from-IsApart :
      (j i : ℕ) (peers : List Bytes) → j < i → IsApart j (results_from net i peers)
  unfolding results_from cons_result
  results_from-IsApart j i [] h = tt
  results_from-IsApart j i (peer ∷ peers) h =
      go (resolved net peer) (results_from-IsApart j (suc i) peers (omega (arith, h)))
    where
      go :
          (addr : Option Bytes)
          → IsApart j (results_from net (suc i) peers)
          → IsApart j (cons_result net i addr (results_from net (suc i) peers))
      go none rest = rest
      go (some addr) rest = (ground (arith, h), rest)

  results_from-Unrepeated : (i : ℕ) (peers : List Bytes) → Unrepeated (results_from net i peers)
  unfolding results_from cons_result Unrepeated
  results_from-Unrepeated i [] = tt
  results_from-Unrepeated i (peer ∷ peers) =
      go (resolved net peer) (results_from-Unrepeated (suc i) peers)
    where
      go :
          (addr : Option Bytes)
          → Unrepeated (results_from net (suc i) peers)
          → Unrepeated (cons_result net i addr (results_from net (suc i) peers))
      go none rest = rest
      go (some addr) rest = (results_from-IsApart i (suc i) peers (omega arith), rest)

  -- The entries from an index on are those of the results.
  abbrev Agrees : ℕ → List Bytes → Map ℕ Bytes → Type 0
  Agrees i peers m = (j : ℕ) → i ≤ j → lookup j m ≡ found j (results_from net i peers) none

  found-first :
      (i : ℕ) (addr : Option Bytes) (rest : List (ℕ × Bytes))
      → IsApart i rest
      → found i (cons_result net i addr rest) none ≡ addr
  unfolding cons_result found
  found-first i none rest h = found_apart i rest none h
  found-first i (some addr) rest h = ground (arith, found_apart i rest (some addr) h)

  found-later :
      (i j : ℕ) (addr : Option Bytes) (rest : List (ℕ × Bytes))
      → suc i ≤ j
      → found j (cons_result net i addr rest) none ≡ found j rest none
  unfolding cons_result found
  found-later i j none rest h = refl
  found-later i j (some addr) rest h = ap (found j rest) (skipped (omega (arith, h)))
    where
      skipped : i < j → ◌≡◌ {A = Option Bytes} (if i == j then some addr else none) none
      skipped k = ground (arith, k)

  sorted_from-addresses :
      (i : ℕ) (peers : List Bytes) (m : Map ℕ Bytes)
      → Agrees i peers m
      → sorted_from i peers m ≡ addresses peers
  unfolding sorted_from addresses results_from
  sorted_from-addresses i [] m agrees = refl
  sorted_from-addresses i (peer ∷ peers) m agrees =
      let addr = resolved net peer in
      let rest = results_from net (suc i) peers in
      ap (λ o. cons_addr o (sorted_from (suc i) peers m))
        (agrees i (omega arith)
          ∙ found-first i addr rest (results_from-IsApart i (suc i) peers (omega arith)))
      ∙ ap (cons_addr addr) (
          sorted_from-addresses (suc i) peers m
            (λ j h. agrees j (omega (arith, h)) ∙ found-later i j addr rest h))

  -- In whatever order the discoveries of the peers end, the addresses stand in the order of the
  -- configuration, one for each peer that yields one.
  pub make_sorted_array-addresses :
      (peers : List Bytes) (results : List (ℕ × Bytes))
      → Appended (results_from net 0 peers) results
      → make_sorted_array results peers ≡ addresses peers
  unfolding make_sorted_array lookup found
  make_sorted_array-addresses peers results appended =
      sorted_from-addresses 0 peers (index_map results []) (λ j h.
        lookup-index_map j results []
        ∙ found-Appended j none appended (results_from-Unrepeated 0 peers))
