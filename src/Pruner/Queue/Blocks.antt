-- ===== src/Pruner/Queue/Blocks.antt =====
-- `DrainBlocks`: how far it drains.
use shinzo_host_client.Prelude.{
  ℕ, zero, suc, ◌+◌, ◌&&◌, ◌≤◌, ◌<◌, ◌≡◌, ◌⊎◌, refl, inl, inr, true, none, List, [], ◌∷◌, nat_eq,
  take, count_p, arith, Bool-cases, leb, leb→le,
}
use shinzo_host_client.Prelude.Int.{ℤ, pos, negsuc, leb_ℤ}
use shinzo_host_client.Pruner.Queue.{
  Entry, Store, is_block, blocks, seen_after, find_cutoff, drain, drain_blocks,
}
use shinzo_host_client.Pruner.Queue.Grouping.{Drained, drain-Drained}
use shinzo_host_client.Pruner.Queue.Invariant.{IsValid, drain-IsValid}

-- The walk finds the block that completes the count, if there are enough blocks.
find_cutoff_found :
    (c i seen : ℕ) (es : List Entry)
    → seen < c
    → c ≤ blocks es + seen
    → (n : ℕ) × (find_cutoff (pos c) i seen es ≡ (c, suc (i + n)))
      × (blocks (take (suc n) es) + seen ≡ c)
      × (suc (blocks (take n es) + seen) ≡ c)
unfolding find_cutoff count_p
find_cutoff_found c i seen [] h k = absurd (omega arith)
find_cutoff_found c i seen (e ∷ es) h k =
    elim (Bool-cases (is_block e && leb c (seen_after e seen))) [
      | inl stop ↦ (0, ground arith, ground arith, ground arith)
      | inr go ↦
          let (n, cut, total, last) =
            find_cutoff_found c (suc i) (seen_after e seen) es (ground arith) (ground arith) in
          (suc n, ground (arith, cut), ground (arith, total), ground (arith, last))
    ]

find_cutoff_missing :
    (c i seen : ℕ) (es : List Entry) → blocks es + seen < c → (find_cutoff (pos c) i seen es).1 ≡ 0
unfolding find_cutoff count_p
find_cutoff_missing c i seen [] h = refl
find_cutoff_missing c i seen (e ∷ es) h =
    ground (arith, find_cutoff_missing c (suc i) (seen_after e seen) es)

module _ (c : ℕ) (s : Store) (v : IsValid s) where
  drain_blocks_found :
      suc c ≤ blocks s.entries
      → (n : ℕ) × (drain_blocks (pos (suc c)) s ≡ drain (suc n) (suc c) s)
        × (blocks (take (suc n) s.entries) ≡ suc c)
        × (blocks (take n s.entries) ≡ c)
  unfolding drain_blocks
  drain_blocks_found h =
      let (n, cut, total, last) =
        find_cutoff_found (suc c) 0 0 s.entries (omega arith) (omega arith) in
      (n, ground (arith, v.counted, cut, total), omega (arith, total), omega (arith, last))

  drain_blocks_missing : blocks s.entries < suc c → drain_blocks (pos (suc c)) s ≡ (none, s)
  unfolding drain_blocks
  drain_blocks_missing h =
      ground (arith, v.counted, find_cutoff_missing (suc c) 0 0 s.entries (omega arith))

drain_blocks-cases :
    (c : ℕ) (s : Store)
    → IsValid s
    → (suc c ≤ blocks s.entries
        → (n : ℕ) × Drained (suc n) (suc c) s (drain_blocks (pos (suc c)) s)
          × (blocks (take (suc n) s.entries) ≡ suc c)
          × (blocks (take n s.entries) ≡ c))
      × (blocks s.entries < suc c → drain_blocks (pos (suc c)) s ≡ (none, s))
drain_blocks-cases c s v = (
  (λ h.
      let (n, e, total, last) = drain_blocks_found c s v h in
      (n, rw e (drain-Drained (suc n) (suc c) s), total, last)),
  drain_blocks_missing c s v,
)

-- On a valid queue, draining c blocks, for c at least 1: if the queue holds c blocks or more, the
-- shortest run of oldest entries that holds c blocks is removed, the other entries, the prefix and
-- the names are kept, and the result reports c blocks; if it holds fewer, there is no result and
-- the queue is unchanged.
pub drain_blocks-Drained :
    (c : ℕ) (s : Store)
    → IsValid s
    → ((suc c ≤ blocks s.entries)
        × ((n : ℕ) × Drained (suc n) (suc c) s (drain_blocks (pos (suc c)) s)
            × (blocks (take (suc n) s.entries) ≡ suc c)
            × (blocks (take n s.entries) ≡ c)))
      ⊎ ((blocks s.entries < suc c) × (drain_blocks (pos (suc c)) s ≡ (none, s)))
drain_blocks-Drained c s v = elim (Bool-cases (leb (suc c) (blocks s.entries))) [
  | inl enough ↦
      let h = leb→le (suc c) (blocks s.entries) enough in inl (h, (drain_blocks-cases c s v).0 h)
  | inr short ↦
      let h : blocks s.entries < suc c = ground arith in inr (h, (drain_blocks-cases c s v).1 h)
]

-- Draining blocks keeps the queue valid, whatever the count is.
pub drain_blocks-IsValid : (count : ℤ) (s : Store) → IsValid s → IsValid (drain_blocks count s).1
drain_blocks-IsValid (pos (suc c)) s v = elim (Bool-cases (leb (suc c) (blocks s.entries))) [
  | inl h ↦
      let (n, e, total, last) = drain_blocks_found c s v (leb→le _ _ h) in
      rw e (drain-IsValid (suc n) (suc c) s total v)
  | inr h ↦ rw (drain_blocks_missing c s v (ground arith)) v
]
drain_blocks-IsValid (pos zero) s v =
    unfold drain_blocks in
    elim (Bool-cases (leb_ℤ s.block_count (pos 0))) [ inl h ↦ rw h v | inr h ↦ rw h v ]
drain_blocks-IsValid (negsuc n) s v =
    unfold drain_blocks in
    elim (Bool-cases (leb_ℤ s.block_count (pos 0))) [
      | inl h ↦ rw h v
      | inr h ↦ let f : leb_ℤ (negsuc n) (pos 0) ≡ true = ground arith in rw (h, f) v
    ]
