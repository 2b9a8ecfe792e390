-- ===== src/Snapshot/Merkle/Collisions.antt =====
-- What importer.go hashes for a Merkle root, and what holds of all hashes.
use shinzo_host_client.Prelude.{
  ℕ, zero, suc, ◌≡◌, ◌≢◌, ◌⊎◌, inl, inr, refl, Bool, true, false, none, some, List, [], ◌∷◌, ◌++◌,
  leb, length, map, All, Any,
}
use shinzo_host_client.Pruner.DocId.{Bytes}
use shinzo_host_client.Snapshot.Merkle.{combine_pairs, reduce, first, compute_snapshot_merkle_root}

-- Two inputs with the same hash, one in each list.
abbrev pub Collision : (Bytes → Bytes) → List Bytes → List Bytes → Type 0
Collision sha256 xs ys = Any (λ x. Any (λ y. (x ≢ y) × (sha256 x ≡ sha256 y)) ys) xs

-- What a round hashes: each pair of hashes, one behind the other.
unfoldable pub joined : List Bytes → List Bytes
joined [] = []
joined (h ∷ []) = []
joined (h ∷ k ∷ hashes) = (h ++ k) ∷ joined hashes

-- What so many rounds hash. A round with one hash or none hashes nothing.
unfoldable pub node_inputs : (Bytes → Bytes) → ℕ → List Bytes → List Bytes
node_inputs sha256 zero hashes = []
node_inputs sha256 (suc rounds) hashes =
    joined hashes ++ node_inputs sha256 rounds (combine_pairs sha256 hashes)

-- All that is hashed for the Merkle root of these roots.
unfoldable pub inputs : (Bytes → Bytes) → List Bytes → List Bytes
inputs sha256 roots = roots ++ node_inputs sha256 (length roots) (map sha256 roots)

module _ {A : Type 0} (P Q : A → Type 0) where
  Any-left : (xs ys : List A) → ((x : A) → P x → Q x) → Any P xs → Any Q (xs ++ ys)
  Any-left [] ys f p = absurd p
  Any-left (x ∷ xs) ys f (inl p) = inl (f x p)
  Any-left (x ∷ xs) ys f (inr p) = inr (Any-left xs ys f p)

  Any-right : (xs ys : List A) → ((x : A) → P x → Q x) → Any P ys → Any Q (xs ++ ys)
  Any-right [] [] f p = absurd p
  Any-right [] (y ∷ ys) f (inl p) = inl (f y p)
  Any-right [] (y ∷ ys) f (inr p) = inr (Any-right [] ys f p)
  Any-right (x ∷ xs) ys f p = inr (Any-right xs ys f p)

module _ (sha256 : Bytes → Bytes) where
  pub Collision-left :
      (xs ys us vs : List Bytes) → Collision sha256 xs ys → Collision sha256 (xs ++ us) (ys ++ vs)
  Collision-left xs ys us vs =
      Any-left (λ x. Any (λ y. (x ≢ y) × (sha256 x ≡ sha256 y)) ys)
        (λ x. Any (λ y. (x ≢ y) × (sha256 x ≡ sha256 y)) (ys ++ vs)) xs us
        (λ x.
          Any-left (λ y. (x ≢ y) × (sha256 x ≡ sha256 y)) (λ y. (x ≢ y) × (sha256 x ≡ sha256 y)) ys
            vs (λ y p. p))

  pub Collision-right :
      (xs ys us vs : List Bytes) → Collision sha256 us vs → Collision sha256 (xs ++ us) (ys ++ vs)
  Collision-right xs ys us vs =
      Any-right (λ x. Any (λ y. (x ≢ y) × (sha256 x ≡ sha256 y)) vs)
        (λ x. Any (λ y. (x ≢ y) × (sha256 x ≡ sha256 y)) (ys ++ vs)) xs us
        (λ x.
          Any-right (λ y. (x ≢ y) × (sha256 x ≡ sha256 y)) (λ y. (x ≢ y) × (sha256 x ≡ sha256 y)) ys
            vs (λ y p. p))

-- What holds of every hash holds of all that the root is computed from, and of the root.
module _ (sha256 : Bytes → Bytes) (P : Bytes → Type 0) (holds : (x : Bytes) → P (sha256 x)) where
  pub map-All : (roots : List Bytes) → All P (map sha256 roots)
  map-All [] = tt
  map-All (r ∷ roots) = (holds r, map-All roots)

  pub combine_pairs-All : (hs : List Bytes) → All P hs → All P (combine_pairs sha256 hs)
  unfolding combine_pairs
  combine_pairs-All [] p = tt
  combine_pairs-All (h ∷ []) p = p
  combine_pairs-All (h ∷ k ∷ hs) (p, (q, ps)) = (holds (h ++ k), combine_pairs-All hs ps)

  reduce-All : (rounds : ℕ) (hs : List Bytes) → All P hs → All P (reduce sha256 rounds hs)
  unfolding reduce
  reduce-All zero hs p = p
  reduce-All (suc rounds) hs p =
      choose (leb (length hs) 1)
        (reduce-All rounds (combine_pairs sha256 hs) (combine_pairs-All hs p))
    where
      choose :
          (b : Bool)
          → All P (reduce sha256 rounds (combine_pairs sha256 hs))
          → All P (elim b [ true ↦ hs | false ↦ reduce sha256 rounds (combine_pairs sha256 hs) ])
      choose true q = p
      choose false q = q

  pub compute_snapshot_merkle_root-All :
      (roots : List Bytes)
      → (compute_snapshot_merkle_root sha256 roots ≡ none)
        ⊎ ((h : Bytes) × (compute_snapshot_merkle_root sha256 roots ≡ some h) × P h)
  unfolding compute_snapshot_merkle_root first
  compute_snapshot_merkle_root-All roots =
      go (reduce sha256 (length roots) (map sha256 roots))
        (reduce-All (length roots) (map sha256 roots) (map-All roots))
    where
      go :
          (hs : List Bytes)
          → All P hs
          → (first hs ≡ none) ⊎ ((h : Bytes) × (first hs ≡ some h) × P h)
      go [] p = inl refl
      go (h ∷ hs) p = inr (h, refl, p.0)
