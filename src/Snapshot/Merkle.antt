-- ===== src/Snapshot/Merkle.antt =====
-- pkg/snapshot/importer.go: the Merkle root over the block signature roots. The two halves of
-- `combined` are overwritten in full, since every hash has 32 bytes, so that it holds one hash
-- behind the other.
pub mod Collisions
pub mod Binding
use shinzo_host_client.Prelude.{
  ℕ, zero, suc, Bool, true, false, Option, none, some, List, [], ◌∷◌, ◌++◌, leb, length, map,
}
use shinzo_host_client.Pruner.DocId.{Bytes}

unfoldable pub first : List Bytes → Option Bytes
first [] = none
first (h ∷ hashes) = some h

module _ (sha256 : Bytes → Bytes) where
  -- The inner loop: hashes are combined in pairs, and an odd one is taken over.
  unfoldable pub combine_pairs : List Bytes → List Bytes
  combine_pairs [] = []
  combine_pairs (h ∷ []) = h ∷ []
  combine_pairs (h ∷ k ∷ hashes) = sha256 (h ++ k) ∷ combine_pairs hashes

  -- The outer loop, with its number of rounds left.
  unfoldable pub reduce : ℕ → List Bytes → List Bytes
  unfolding combine_pairs
  reduce zero hashes = hashes
  reduce (suc rounds) hashes = elim (leb (length hashes) 1) [
    | true ↦ hashes
    | false ↦ reduce rounds (combine_pairs hashes)
  ]

  -- As many rounds as there are hashes are enough. `none` is nil.
  unfoldable pub compute_snapshot_merkle_root : List Bytes → Option Bytes
  unfolding first reduce
  compute_snapshot_merkle_root roots = first (reduce (length roots) (map sha256 roots))
