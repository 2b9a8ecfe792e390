-- ===== src/Pruner/Queue/Grouping.antt =====
-- What a drain reports: the restored IDs of each collection, in arrival order.
use shinzo_host_client.Prelude.{
  ℕ, zero, suc, ◌≡◌, refl, ◌≢◌, ◌⊎◌, sym, ◌∙◌, ap, String, true, false, Option, none, some, List,
  [], ◌∷◌, ◌++◌, ◌==◌, nat_eq, string_eq, if◌then◌else◌, length, take, drop, Map, lookup, insert,
  lookup-insert, ==_iff, arith, inl, inr, Option-cases,
}
use shinzo_host_client.Prelude.Int.{ℤ, negsuc, pos, leb_ℤ}
use Prim.Native.Nat.{min}
use mathlib.Core.List.{append_assoc, append-nil}
use shinzo_host_client.Pruner.DocId.{Bytes, restore_doc_id}
use shinzo_host_client.Pruner.Queue.{
  blocks, Entry, Store, DrainResult, append_doc, docs_at, group, drained, undrained, drain,
  drain_docs, clamp,
}

-- The IDs of the entries that belong to a collection.
unfoldable pub docs_of : Option Bytes → Map ℕ String → String → List Entry → List Bytes
docs_of prefix names name [] = []
docs_of prefix names name (e ∷ es) =
    elim (lookup e.collection names) [
      | none ↦ []
      | some n ↦ if n == name then restore_doc_id prefix e.uuid ∷ [] else []
    ]
    ++ docs_of prefix names name es

docs_at-insert :
    (name n : String) (docs : List Bytes) (m : Map String (List Bytes))
    → docs_at name (insert n docs m) ≡ (if n == name then docs else docs_at name m)
unfolding docs_at
docs_at-insert name n docs m = ground (arith, lookup-insert n name docs m)

docs_at-append_doc :
    (name n : String) (d : Bytes) (m : Map String (List Bytes))
    → docs_at name (append_doc n d m) ≡ docs_at name m ++ (if n == name then d ∷ [] else [])
unfolding append_doc
docs_at-append_doc name n d m = ground (
  arith,
  docs_at-insert name n (docs_at n m ++ d ∷ []) m,
  ==_iff n name,
  append-nil (docs_at name m),
)

docs_at-group :
    (prefix : Option Bytes) (names : Map ℕ String) (name : String) (es : List Entry)
    (m : Map String (List Bytes))
    → docs_at name (group prefix names es m) ≡ docs_at name m ++ docs_of prefix names name es
unfolding group docs_of
docs_at-group prefix names name [] m = sym (append-nil _)
docs_at-group prefix names name (e ∷ es) m = elim (Option-cases (lookup e.collection names)) [
  | inl h ↦ rw h (docs_at-group prefix names name es m)
  | inr (n, h) ↦ rw h (
      let d = restore_doc_id prefix e.uuid in
      docs_at-group prefix names name es (append_doc n d m)
      ∙ ap (λ l. l ++ docs_of prefix names name es) (docs_at-append_doc name n d m)
      ∙ append_assoc (docs_at name m) (if n == name then d ∷ [] else [])
          (docs_of prefix names name es))
]

-- The outcome of removing the n oldest entries, of which `seen` are blocks: the result reports the
-- blocks and, for every collection, the restored IDs of the removed entries of that name, oldest
-- first; the other entries stay in order, and the prefix and the names are kept.
pub record Drained (n seen : ℕ) (s : Store) (out : Option DrainResult × Store) : Type 0 where
  pub reported :
      (r : DrainResult) × (out.0 ≡ some r)
      × (r.block_count ≡ seen)
      × ((name : String)
          → docs_at name r.doc_ids_by_collection
            ≡ docs_of s.prefix s.collection_names name (take n s.entries))
  pub left : out.1.entries ≡ drop n s.entries
  pub kept :
      (out.1.prefix ≡ s.prefix)
      × (out.1.collection_names ≡ s.collection_names)
      × (out.1.collection_enums ≡ s.collection_enums)

pub drained-docs_of :
    (n seen : ℕ) (s : Store) (name : String)
    → docs_at name (drained n seen s).doc_ids_by_collection
      ≡ docs_of s.prefix s.collection_names name (take n s.entries)
unfolding drained docs_at lookup
drained-docs_of n seen s name = docs_at-group s.prefix s.collection_names name (take n s.entries) []

pub entries-undrained : (n seen : ℕ) (s : Store) → (undrained n seen s).entries ≡ drop n s.entries
unfolding undrained
entries-undrained n seen s = refl

pub tables-undrained :
    (n seen : ℕ) (s : Store)
    → ((undrained n seen s).prefix ≡ s.prefix)
      × ((undrained n seen s).collection_names ≡ s.collection_names)
      × ((undrained n seen s).collection_enums ≡ s.collection_enums)
unfolding undrained
tables-undrained n seen s = (refl, refl, refl)

pub drain-Drained : (n seen : ℕ) (s : Store) → Drained n seen s (drain n seen s)
unfolding drain
drain-Drained n seen s = record {
  reported = (drained n seen s, refl, refl, drained-docs_of n seen s);
  left = refl;
  kept = (refl, refl, refl);
}

length-eq_zero : (es : List Entry) → es ≡ [] → length es ≡ 0
length-eq_zero es h = ap length h

nonempty : (es : List Entry) → es ≢ [] → (length es == 0) ≡ false
nonempty [] h = absurd (h refl)
nonempty (e ∷ es) h = ground arith

clamp-min : (c len : ℕ) → clamp (pos c) len ≡ min c len
unfolding clamp
clamp-min c len = ground arith

pub drain_docs_positive :
    (c : ℕ) (s : Store)
    → s.entries ≢ []
    → drain_docs (pos (suc c)) s
      ≡ drain
          (min (suc c) (length s.entries))
          (blocks (take (min (suc c) (length s.entries)) s.entries))
          s
drain_docs_positive c s h = rw (← clamp-min (suc c) (length s.entries)) (
    unfold drain_docs in
    let e = nonempty s.entries h in
    let f : leb_ℤ (pos (suc c)) (pos 0) ≡ false = ground arith in rw (e, f))

drain_docs-cases :
    (count : ℤ) (s : Store)
    → ((c : ℕ)
        → count ≡ pos (suc c)
        → s.entries ≢ []
        → Drained
            (min (suc c) (length s.entries))
            (blocks (take (min (suc c) (length s.entries)) s.entries))
            s
            (drain_docs count s))
      × ((leb_ℤ count (pos 0) ≡ true) ⊎ (s.entries ≡ []) → drain_docs count s ≡ (none, s))
unfolding drain_docs
drain_docs-cases count s = (
  (λ c e h.
      let n = min (suc c) (length s.entries) in
      rw (e, drain_docs_positive c s h) (drain-Drained n (blocks (take n s.entries)) s)),
  (λ h. ground (arith, length-eq_zero s.entries)),
)

-- For a positive count and a queue that is not empty, draining removes the oldest entries, as many
-- as the count says or all; for a count of 0 or less, or an empty queue, there is no result and
-- the queue is unchanged.
pub drain_docs-Drained :
    (count : ℤ) (s : Store)
    → ((c : ℕ) × (count ≡ pos (suc c))
        × (s.entries ≢ [])
        × Drained
            (min (suc c) (length s.entries))
            (blocks (take (min (suc c) (length s.entries)) s.entries))
            s
            (drain_docs count s))
      ⊎ (((leb_ℤ count (pos 0) ≡ true) ⊎ (s.entries ≡ [])) × (drain_docs count s ≡ (none, s)))
drain_docs-Drained (negsuc n) s =
    let h : leb_ℤ (negsuc n) (pos 0) ≡ true = ground arith in
    inr (inl h, (drain_docs-cases (negsuc n) s).1 (inl h))
drain_docs-Drained (pos zero) s = inr (inl refl, (drain_docs-cases (pos zero) s).1 (inl refl))
drain_docs-Drained (pos (suc c)) s = elim (empty_or_not s.entries) [
  | inl e ↦ inr (inr e, (drain_docs-cases (pos (suc c)) s).1 (inr e))
  | inr h ↦ inl (c, refl, h, (drain_docs-cases (pos (suc c)) s).0 c refl h)
]
  where
    empty_or_not : (es : List Entry) → (es ≡ []) ⊎ (es ≢ [])
    empty_or_not [] = inl refl
    empty_or_not (e ∷ es) = inr (λ h. ground arith)
