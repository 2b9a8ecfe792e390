-- ===== src/Attestation/Blocks/Cache.antt =====
-- The size of the block signature cache of blockSignatureVerifier.go, and what it forgets.
use shinzo_host_client.Prelude.{
  ℕ, suc, ◌≤◌, ◌≡◌, sym, ◌∙◌, refl, true, ◌||◌, some, [], ◌∷◌, ◌==◌, ==_iff, if◌then◌else◌, length,
  Map, lookup, insert, delete, ltb, lookup-delete, lookup-insert, All, arith, Bool-cases, inl, inr,
  ◌⊎◌, Eq,
}
use shinzo_host_client.Prelude.Int.{ℤ, pos, negsuc, int_eq, ltb_ℤ, leb_ℤ, ◌≤ℤ◌}
use shinzo_host_client.Attestation.Blocks.{
  BlockSignature, BlockSignatureCache, min_block, evict, add, get,
}
use mathlib.Core.Path.{subst}

module _ {ℓ} {K V : Type ℓ} ⦃e : Eq K⦄ where
  length-insert : (k : K) (v : V) (m : Map K V) → length (insert k v m) ≤ suc (length m)
  unfolding insert
  length-insert k v [] = omega arith
  length-insert k v ((j, w) ∷ m) = ground (arith, length-insert k v m)

  length-delete_le : (k : K) (m : Map K V) → length (delete k m) ≤ length m
  unfolding delete
  length-delete_le k [] = omega arith
  length-delete_le k ((j, w) ∷ m) = ground (arith, length-delete_le k m)

  length-delete :
      (k : K) (v : V) (m : Map K V) → lookup k m ≡ some v → suc (length (delete k m)) ≤ length m
  unfolding delete lookup
  length-delete k v [] h = ground arith
  length-delete k v ((j, w) ∷ m) h = ground (arith, length-delete_le k m, length-delete k v m)

-- Keys that are not negative, as block numbers are.
abbrev IsBlock : ℤ × BlockSignature → Type 0
IsBlock (k, v) = pos 0 ≤ℤ k

-- Once a key is found, the least so far is one: it is a key, or the one from before.
min_block-found :
    (m : Map ℤ BlockSignature) (least : ℤ)
    → All IsBlock m
    → pos 0 ≤ℤ least
    → (min_block m least ≤ℤ least)
      × (pos 0 ≤ℤ min_block m least)
      × All (λ (k, v). min_block m least ≤ℤ k) m
unfolding min_block
min_block-found [] least h p = (omega arith, p, tt)
min_block-found ((k, v) ∷ m) least h p =
    let next = if least == negsuc 0 || ltb_ℤ k least then k else least in
    let (below, above) = step k least h.0 p in
    let (le, nonneg, all) = min_block-found m next h.1 above in
    (omega (arith, le, below.0), nonneg, (omega (arith, le, below.1), all))
  where
    step :
        (k least : ℤ)
        → pos 0 ≤ℤ k
        → pos 0 ≤ℤ least
        → (((if least == negsuc 0 || ltb_ℤ k least then k else least) ≤ℤ least)
            × ((if least == negsuc 0 || ltb_ℤ k least then k else least) ≤ℤ k))
          × (pos 0 ≤ℤ (if least == negsuc 0 || ltb_ℤ k least then k else least))
    step (pos a) (pos b) x y = ground arith
    step (pos a) (negsuc b) x y = ground arith
    step (negsuc a) b x y = ground arith

-- The key found is one of the map's.
min_block-lookup :
    (m : Map ℤ BlockSignature) (least : ℤ)
    → (min_block m least ≡ least) ⊎ ((v : BlockSignature) × (lookup (min_block m least) m ≡ some v))
unfolding min_block lookup
min_block-lookup [] least = inl refl
min_block-lookup ((k, v) ∷ m) least =
    let taken = least == negsuc 0 || ltb_ℤ k least in
    let next = if taken then k else least in
    elim (Bool-cases (k == min_block m next)) [
      | inl same ↦ inr (v, rw same refl)
      | inr other ↦ elim (min_block-lookup m next) [
        | inl kept ↦ elim (Bool-cases taken) [
          | inl t ↦
              let is_k : next ≡ k = rw t refl in
              absurd (ground (arith, (==_iff k (min_block m next)).1 (sym (kept ∙ is_k))))
          | inr f ↦ let is_least : next ≡ least = rw f refl in inl (kept ∙ is_least)
        ]
        | inr (w, found) ↦ inr (w, rw other found)
      ]
    ]

insert-IsBlock :
    (k : ℤ) (v : BlockSignature) (m : Map ℤ BlockSignature)
    → pos 0 ≤ℤ k
    → All IsBlock m
    → All IsBlock (insert k v m)
unfolding insert
insert-IsBlock k v [] p h = (p, tt)
insert-IsBlock k v ((j, w) ∷ m) p h = elim (Bool-cases (j == k)) [
  | inl same ↦ rw same h
  | inr other ↦ rw other (h.0, insert-IsBlock k v m p h.1)
]

delete-IsBlock : (k : ℤ) (m : Map ℤ BlockSignature) → All IsBlock m → All IsBlock (delete k m)
unfolding delete
delete-IsBlock k [] h = tt
delete-IsBlock k ((j, w) ∷ m) h = elim (Bool-cases (j == k)) [
  | inl same ↦ rw same (delete-IsBlock k m h.1)
  | inr other ↦ rw other (h.0, delete-IsBlock k m h.1)
]

-- A cache within its size, of blocks whose numbers are not negative.
pub record IsValid (c : BlockSignatureCache) : Type 0 where
  pub bounded : length c.signatures ≤ c.max_size
  pub blocks : All (λ (k, v). pos 0 ≤ℤ k) c.signatures

-- What is left of an overfull map: no more entries than fit, and of the others none but the least.
pub record Evicts (max_size : ℕ) (before after : Map ℤ BlockSignature) : Type 0 where
  pub bounded : length after ≤ max_size
  pub blocks : All (λ (k, v). pos 0 ≤ℤ k) after
  pub keeps : (b : ℤ) → (lookup b after ≡ lookup b before) ⊎ All (λ (k, v). b ≤ℤ k) before

-- With the loop's result `least` for a non-empty map.
least-Evicts :
    (max_size : ℕ) (k : ℤ) (v : BlockSignature) (m : Map ℤ BlockSignature)
    → length m ≤ max_size
    → All IsBlock ((k, v) ∷ m)
    → Evicts max_size ((k, v) ∷ m) (
        let least = min_block ((k, v) ∷ m) (negsuc 0) in
        if leb_ℤ (pos 0) least then delete least ((k, v) ∷ m) else (k, v) ∷ m)
least-Evicts max_size k v m full h =
    let least = min_block ((k, v) ∷ m) (negsuc 0) in
    let is_least : least ≡ min_block m k = unfold min_block in refl in
    let (le, nonneg, all) = min_block-found m k h.1 h.0 in
    let (w, found) = present (min_block-lookup ((k, v) ∷ m) (negsuc 0)) (rw is_least nonneg) in
    rw (test least (rw is_least nonneg)) (record {
      bounded = omega (arith, full, length-delete least w ((k, v) ∷ m) found);
      blocks = delete-IsBlock least ((k, v) ∷ m) h;
      keeps = λ b. elim (Bool-cases (least == b)) [
        | inl same ↦
            let is_b : min_block m k ≡ b = sym is_least ∙ (==_iff least b).0 same in
            inr (subst (λ (z : ℤ). (z ≤ℤ k) × All (λ (j, w). z ≤ℤ j) m) is_b (le, all))
        | inr other ↦ inl (lookup-delete least b ((k, v) ∷ m) ∙ rw other refl)
      ];
    })
  where
    test : (z : ℤ) → pos 0 ≤ℤ z → leb_ℤ (pos 0) z ≡ true
    test z p = ground arith

    present :
        (let least = min_block ((k, v) ∷ m) (negsuc 0) in
          (least ≡ negsuc 0) ⊎ ((w : BlockSignature) × (lookup least ((k, v) ∷ m) ≡ some w)))
        → pos 0 ≤ℤ min_block ((k, v) ∷ m) (negsuc 0)
        → (w : BlockSignature) × (lookup (min_block ((k, v) ∷ m) (negsuc 0)) ((k, v) ∷ m) ≡ some w)
    present (inl none_found) p = absurd (omega (arith, subst (λ z. pos 0 ≤ℤ z) none_found p))
    present (inr found) p = found

evict-Evicts :
    (max_size : ℕ) (m : Map ℤ BlockSignature)
    → length m ≤ suc max_size
    → All IsBlock m
    → Evicts max_size m (evict max_size m)
unfolding evict
evict-Evicts max_size m full h = elim (Bool-cases (ltb max_size (length m))) [
  | inl over ↦ rw over (overfull m full over h)
  | inr fits ↦ rw fits (record { bounded = ground arith; blocks = h; keeps = λ b. inl refl })
]
  where
    overfull :
        (n : Map ℤ BlockSignature)
        → length n ≤ suc max_size
        → ltb max_size (length n) ≡ true
        → All IsBlock n
        → Evicts max_size n (
            let least = min_block n (negsuc 0) in if leb_ℤ (pos 0) least then delete least n else n)
    overfull [] f o b = absurd (ground arith)
    overfull ((k, v) ∷ n) f o b = least-Evicts max_size k v n (omega (arith, f)) b

added :
    (sig : BlockSignature) (c : BlockSignatureCache)
    → pos 0 ≤ℤ sig.block_number
    → IsValid c
    → Evicts c.max_size (insert sig.block_number sig c.signatures) (add (some sig) c).signatures
unfolding add
added sig c p h =
    evict-Evicts c.max_size (insert sig.block_number sig c.signatures)
      (omega (arith, length-insert sig.block_number sig c.signatures, h.bounded))
      (insert-IsBlock sig.block_number sig c.signatures p h.blocks)

-- Adding the signature of a block, whose number is not negative, to a valid cache leaves a valid
-- cache: it is within its size.
pub add-IsValid :
    (sig : BlockSignature) (c : BlockSignatureCache)
    → pos 0 ≤ℤ sig.block_number
    → IsValid c
    → IsValid (add (some sig) c)
unfolding add
add-IsValid sig c p h = let e = added sig c p h in record { bounded = e.bounded; blocks = e.blocks }

-- What is not above any key of a map with an entry is not above any without it.
insert-below :
    (sig : BlockSignature) (b n : ℤ) (m : Map ℤ BlockSignature)
    → All (λ (k, v). b ≤ℤ k) (insert n sig m)
    → (b ≤ℤ n) × All (λ (k, v). b ≤ℤ k) m
unfolding insert
insert-below sig b n [] a = (a.0, tt)
insert-below sig b n ((j, w) ∷ m) a = elim (Bool-cases (j == n)) [
  | inl same ↦
      let entry : insert n sig ((j, w) ∷ m) ≡ (j, sig) ∷ m = rw same refl in
      let (le, rest) : All (λ (k, v). b ≤ℤ k) ((j, sig) ∷ m) =
        subst (All (λ (k, v). b ≤ℤ k)) entry a in
      (subst (λ z. b ≤ℤ z) ((==_iff j n).0 same) le, (le, rest))
  | inr other ↦
      let entry : insert n sig ((j, w) ∷ m) ≡ (j, w) ∷ insert n sig m = rw other refl in
      let (le, rest) : All (λ (k, v). b ≤ℤ k) ((j, w) ∷ insert n sig m) =
        subst (All (λ (k, v). b ≤ℤ k)) entry a in
      let (le_n, below) = insert-below sig b n m rest in (le_n, (le, below))
]

-- After a signature with a number that is not negative is added to a valid cache, every block has
-- what it had before, and the added one the signature, but for a block whose number is above that
-- of none in the cache, nor above the added one's.
pub get-add :
    (sig : BlockSignature) (c : BlockSignatureCache) (b : ℤ)
    → pos 0 ≤ℤ sig.block_number
    → IsValid c
    → (get b (add (some sig) c) ≡ (if sig.block_number == b then some sig else get b c))
      ⊎ ((b ≤ℤ sig.block_number) × All (λ (k, v). b ≤ℤ k) c.signatures)
unfolding get
get-add sig c b p h = elim ((added sig c p h).keeps b) [
  | inl kept ↦ inl (kept ∙ lookup-insert sig.block_number b sig c.signatures)
  | inr least ↦ inr (insert-below sig b sig.block_number c.signatures least)
]
