-- ===== src/Snapshot/Merkle/Binding.antt =====
-- What the Merkle root of importer.go determines: the roots that it is computed from.
use shinzo_host_client.Prelude.{
  ℕ, zero, suc, ◌+◌, ◌/◌, ◌≤◌, ◌≡◌, ◌≢◌, ◌⊎◌, ◌∙◌, inl, inr, refl, sym, ap, true, false, List, [],
  ◌∷◌, ◌++◌, leb, length, map, All, arith, Bool-cases,
}
use mathlib.Core.Path.{subst}
use shinzo_host_client.Prelude.Bytes.{bytes_decided}
use shinzo_host_client.Pruner.DocId.{Bytes}
use shinzo_host_client.Snapshot.Merkle.{combine_pairs, reduce, first, compute_snapshot_merkle_root}
use shinzo_host_client.Snapshot.Merkle.Collisions.{
  Collision, joined, node_inputs, inputs, Collision-left, Collision-right, map-All,
  combine_pairs-All,
}

split_append : (a b c d : Bytes) → length a ≡ length b → a ++ c ≡ b ++ d → (a ≡ b) × (c ≡ d)
split_append [] [] c d n e = (refl, e)
split_append (x ∷ a) (y ∷ b) c d n e =
    let (head, tail) : (x ≡ y) × (a ++ c ≡ b ++ d) = ground arith in
    let (front, back) = split_append a b c d (omega (arith, n)) tail in (ground arith, back)
split_append [] (y ∷ b) c d n e = absurd (ground (arith, n))
split_append (x ∷ a) [] c d n e = absurd (ground (arith, n))

module _ (sha256 : Bytes → Bytes) where
  Hashed : List Bytes → Type 0
  Hashed = All (λ h. length h ≡ 32)

  same_input : (x y : Bytes) → sha256 x ≡ sha256 y → (x ≡ y) ⊎ ((x ≢ y) × (sha256 x ≡ sha256 y))
  same_input x y e = elim (bytes_decided x y) [ inl same ↦ inl same | inr other ↦ inr (other, e) ]

  combine_pairs-binds :
      (hs ks : List Bytes)
      → Hashed hs
      → Hashed ks
      → length hs ≡ length ks
      → combine_pairs sha256 hs ≡ combine_pairs sha256 ks
      → (hs ≡ ks) ⊎ Collision sha256 (joined hs) (joined ks)
  unfolding combine_pairs Hashed joined
  combine_pairs-binds [] [] p q n e = inl refl
  combine_pairs-binds (h ∷ []) (k ∷ []) p q n e = inl e
  combine_pairs-binds (h ∷ h' ∷ hs) (k ∷ k' ∷ ks) (p, (p', ps)) (q, (q', qs)) n e =
      let (head, tail) : (sha256 (h ++ h') ≡ sha256 (k ++ k'))
          × (combine_pairs sha256 hs ≡ combine_pairs sha256 ks) =
        ground arith in
      elim (same_input (h ++ h') (k ++ k') head) [
        | inr clash ↦ inr (inl (inl clash))
        | inl same_pair ↦ elim (combine_pairs-binds hs ks ps qs (omega (arith, n)) tail) [
          | inr collision ↦ inr (
              Collision-right sha256 ((h ++ h') ∷ []) ((k ++ k') ∷ []) (joined hs) (joined ks)
                collision)
          | inl same ↦
              let (left, right) = split_append h k h' k' (p ∙ sym q) same_pair in inl (ground arith)
        ]
      ]
  combine_pairs-binds [] (k ∷ ks) p q n e = absurd (ground (arith, n))
  combine_pairs-binds (h ∷ hs) [] p q n e = absurd (ground (arith, n))
  combine_pairs-binds (h ∷ []) (k ∷ k' ∷ ks) p q n e = absurd (ground (arith, n))
  combine_pairs-binds (h ∷ h' ∷ hs) (k ∷ []) p q n e = absurd (ground (arith, n))

  length-combine_pairs : (hs : List Bytes) → length (combine_pairs sha256 hs) ≡ (length hs + 1) / 2
  unfolding combine_pairs
  length-combine_pairs [] = omega arith
  length-combine_pairs (h ∷ []) = omega arith
  length-combine_pairs (h ∷ k ∷ hs) = omega (arith, length-combine_pairs hs)

  reduce_done :
      (rounds : ℕ) (hs : List Bytes) → leb (length hs) 1 ≡ true → reduce sha256 (suc rounds) hs ≡ hs
  unfolding reduce
  reduce_done rounds hs h = ground arith

  reduce_more :
      (rounds : ℕ) (hs : List Bytes)
      → leb (length hs) 1 ≡ false
      → reduce sha256 (suc rounds) hs ≡ reduce sha256 rounds (combine_pairs sha256 hs)
  unfolding reduce
  reduce_more rounds hs h = ground arith

  length-reduce :
      (rounds : ℕ) (hs : List Bytes) → length hs ≤ suc rounds → length (reduce sha256 rounds hs) ≤ 1
  unfolding reduce
  length-reduce zero hs n = omega (arith, n)
  length-reduce (suc rounds) hs n = elim (Bool-cases (leb (length hs) 1)) [
    | inl done ↦ rw (reduce_done rounds hs done) (ground arith)
    | inr more ↦
        rw (reduce_more rounds hs more)
          (length-reduce rounds (combine_pairs sha256 hs) (ground (arith, length-combine_pairs hs)))
  ]

  module _ (sized : (x : Bytes) → length (sha256 x) ≡ 32) where
    combine_pairs-Hashed : (hs : List Bytes) → Hashed hs → Hashed (combine_pairs sha256 hs)
    unfolding Hashed
    combine_pairs-Hashed = combine_pairs-All sha256 (λ h. length h ≡ 32) sized

    reduce-binds :
        (rounds : ℕ) (hs ks : List Bytes)
        → Hashed hs
        → Hashed ks
        → length hs ≡ length ks
        → reduce sha256 rounds hs ≡ reduce sha256 rounds ks
        → (hs ≡ ks) ⊎ Collision sha256 (node_inputs sha256 rounds hs) (node_inputs sha256 rounds ks)
    unfolding reduce node_inputs
    reduce-binds zero hs ks p q n e = inl e
    reduce-binds (suc rounds) hs ks p q n e = elim (Bool-cases (leb (length hs) 1)) [
      | inl done ↦ inl (stopped done (rw n at done))
      | inr more ↦
          elim (reduce-binds rounds (combine_pairs sha256 hs) (combine_pairs sha256 ks)
            (combine_pairs-Hashed hs p) (combine_pairs-Hashed ks q)
            (length-combine_pairs hs ∙ ap (λ m. (m + 1) / 2) n ∙ sym (length-combine_pairs ks))
            (went_on more (rw n at more))) [
              | inl same ↦ elim (combine_pairs-binds hs ks p q n same) [
                | inl equal ↦ inl equal
                | inr collision ↦ inr (
                    Collision-left sha256 (joined hs) (joined ks)
                      (node_inputs sha256 rounds (combine_pairs sha256 hs))
                      (node_inputs sha256 rounds (combine_pairs sha256 ks)) collision)
              ]
              | inr collision ↦ inr (
                  Collision-right sha256 (joined hs) (joined ks)
                    (node_inputs sha256 rounds (combine_pairs sha256 hs))
                    (node_inputs sha256 rounds (combine_pairs sha256 ks)) collision)
            ]
    ]
      where
        stopped : leb (length hs) 1 ≡ true → leb (length ks) 1 ≡ true → hs ≡ ks
        stopped a b = sym (reduce_done rounds hs a) ∙ e ∙ reduce_done rounds ks b

        went_on :
            leb (length hs) 1 ≡ false
            → leb (length ks) 1 ≡ false
            → reduce sha256 rounds (combine_pairs sha256 hs)
              ≡ reduce sha256 rounds (combine_pairs sha256 ks)
        went_on a b = sym (reduce_more rounds hs a) ∙ e ∙ reduce_more rounds ks b

    map-Hashed : (roots : List Bytes) → Hashed (map sha256 roots)
    unfolding Hashed
    map-Hashed = map-All sha256 (λ h. length h ≡ 32) sized

    length-map : (roots : List Bytes) → length (map sha256 roots) ≡ length roots
    length-map [] = refl
    length-map (r ∷ roots) = ap suc (length-map roots)

    map-binds :
        (rs ss : List Bytes)
        → length rs ≡ length ss
        → map sha256 rs ≡ map sha256 ss
        → (rs ≡ ss) ⊎ Collision sha256 rs ss
    map-binds [] [] n e = inl refl
    map-binds (r ∷ rs) (s ∷ ss) n e =
        let (head, tail) : (sha256 r ≡ sha256 s) × (map sha256 rs ≡ map sha256 ss) = ground arith in
        elim (same_input r s head) [
          | inr clash ↦ inr (inl (inl clash))
          | inl same ↦ elim (map-binds rs ss (omega (arith, n)) tail) [
            | inr collision ↦ inr (Collision-right sha256 (r ∷ []) (s ∷ []) rs ss collision)
            | inl rest ↦ inl (ground arith)
          ]
        ]
    map-binds [] (s ∷ ss) n e = absurd (ground (arith, n))
    map-binds (r ∷ rs) [] n e = absurd (ground (arith, n))

    first-binds :
        (hs ks : List Bytes) → length hs ≡ length ks → length hs ≤ 1 → first hs ≡ first ks → hs ≡ ks
    unfolding first
    first-binds [] [] n m e = refl
    first-binds (h ∷ []) (k ∷ []) n m e = ground arith
    first-binds (h ∷ h' ∷ hs) ks n m e = absurd (ground (arith, m))
    first-binds [] (k ∷ ks) n m e = absurd (ground (arith, n))
    first-binds (h ∷ []) [] n m e = absurd (ground (arith, n))
    first-binds (h ∷ []) (k ∷ k' ∷ ks) n m e = absurd (ground (arith, n))

    length-reduce_eq :
        (rounds : ℕ) (hs ks : List Bytes)
        → length hs ≡ length ks
        → length (reduce sha256 rounds hs) ≡ length (reduce sha256 rounds ks)
    unfolding reduce
    length-reduce_eq zero hs ks n = n
    length-reduce_eq (suc rounds) hs ks n = elim (Bool-cases (leb (length hs) 1)) [
      | inl done ↦ rw (reduce_done rounds hs done, reduce_done rounds ks (rw n at done)) n
      | inr more ↦
          rw (reduce_more rounds hs more, reduce_more rounds ks (rw n at more))
            (length-reduce_eq rounds (combine_pairs sha256 hs) (combine_pairs sha256 ks)
              (length-combine_pairs hs ∙ ap (λ m. (m + 1) / 2) n ∙ sym (length-combine_pairs ks)))
    ]

    -- If every hash has 32 bytes, the Merkle root binds: two lists of as many roots with one Merkle
    -- root are the same list, or two inputs that are hashed for them have the same hash.
    pub compute_snapshot_merkle_root-binds :
        (rs ss : List Bytes)
        → length rs ≡ length ss
        → compute_snapshot_merkle_root sha256 rs ≡ compute_snapshot_merkle_root sha256 ss
        → (rs ≡ ss) ⊎ Collision sha256 (inputs sha256 rs) (inputs sha256 ss)
    unfolding compute_snapshot_merkle_root inputs
    compute_snapshot_merkle_root-binds rs ss n e =
        let lengths = length-map rs ∙ n ∙ sym (length-map ss) in
        let e' : first (reduce sha256 (length rs) (map sha256 rs))
            ≡ first (reduce sha256 (length rs) (map sha256 ss)) =
          e ∙ ap (λ m. first (reduce sha256 m (map sha256 ss))) (sym n) in
        let reduced =
          first-binds (reduce sha256 (length rs) (map sha256 rs))
            (reduce sha256 (length rs) (map sha256 ss))
            (length-reduce_eq (length rs) (map sha256 rs) (map sha256 ss) lengths)
            (length-reduce (length rs) (map sha256 rs) (omega (arith, length-map rs))) e' in
        elim (reduce-binds (length rs) (map sha256 rs) (map sha256 ss) (map-Hashed rs)
          (map-Hashed ss) lengths reduced) [
            | inl hashed ↦ elim (map-binds rs ss n hashed) [
              | inl same ↦ inl same
              | inr collision ↦ inr (
                  Collision-left sha256 rs ss (node_inputs sha256 (length rs) (map sha256 rs))
                    (node_inputs sha256 (length ss) (map sha256 ss)) collision)
            ]
            | inr collision ↦ inr (
                Collision-right sha256 rs ss (node_inputs sha256 (length rs) (map sha256 rs))
                  (node_inputs sha256 (length ss) (map sha256 ss))
                  (subst
                    (λ m.
                      Collision sha256 (node_inputs sha256 (length rs) (map sha256 rs))
                        (node_inputs sha256 m (map sha256 ss)))
                    n collision))
          ]
