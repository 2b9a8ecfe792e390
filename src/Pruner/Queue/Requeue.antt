-- ===== src/Pruner/Queue/Requeue.antt =====
-- `Requeue` puts drained documents back in front.
use shinzo_host_client.Prelude.{
  ℕ, ◌+◌, ◌≡◌, refl, ◌∙◌, ap, String, Option, none, some, List, [], ◌∷◌, ◌++◌, ◌==◌, nat_eq,
  string_eq, ◌↔◌, if◌then◌else◌, length, count_p, count_p-append, Map, lookup, ==_iff, All,
  All-append, arith, Bool-cases, Option-cases, inl, inr,
}
use shinzo_host_client.Prelude.Int.{◌+ℤ◌}
use shinzo_host_client.Pruner.DocId.{Bytes, Result, ok, err, extract_uuid, restore_doc_id, capture}
use shinzo_host_client.Pruner.DocId.RoundTrip.{
  IsUuid, IsPrefix, HasNoDash, extract_uuid-restore_doc_id,
}
use shinzo_host_client.Pruner.DocId.Bounds.{extract_uuid-cases}
use shinzo_host_client.Pruner.Queue.{
  Entry, Store, is_block, blocks, col_block, cons_entry, requeued, requeue_at, requeue,
}
use shinzo_host_client.Pruner.Queue.Grouping.{docs_of}
use shinzo_host_client.Pruner.Queue.Invariant.{IsValid, HasUuid}

cons_entry-HasUuid :
    (col : ℕ) (r : Result Bytes) (es : List Entry)
    → ((u : Bytes) → r ≡ ok u → IsUuid u)
    → All HasUuid es
    → All HasUuid (cons_entry col r es)
unfolding cons_entry
cons_entry-HasUuid col (err x) es hu h = h
cons_entry-HasUuid col (ok u) es hu h = (hu u refl, h)

cons_entry-blocks :
    (col : ℕ) (r : Result Bytes) (es : List Entry)
    → blocks es ≡ (if col == col_block then length es else 0)
    → blocks (cons_entry col r es) ≡ (if col == col_block then length (cons_entry col r es) else 0)
unfolding cons_entry count_p
cons_entry-blocks col (err x) es h = h
cons_entry-blocks col (ok u) es h = ground arith

requeued-HasUuid :
    (col : ℕ) (prefix : Option Bytes) (ids : List Bytes)
    → IsPrefix prefix
    → All HasUuid (requeued col prefix ids).0
      × IsPrefix (requeued col prefix ids).1
      × (blocks (requeued col prefix ids).0
          ≡ (if col == col_block then length (requeued col prefix ids).0 else 0))
unfolding requeued count_p
requeued-HasUuid col prefix [] h = (tt, h, ground arith)
requeued-HasUuid col prefix (d ∷ ids) h =
    let (uuid_ok, prefix_ok) = extract_uuid-cases prefix d h in
    let (all, prefix_ok', counted) = requeued-HasUuid col (extract_uuid prefix d).1 ids prefix_ok in
    let es = (requeued col (extract_uuid prefix d).1 ids).0 in
    let uuid = (extract_uuid prefix d).0 in
    (cons_entry-HasUuid col uuid es uuid_ok all, prefix_ok', cons_entry-blocks col uuid es counted)

requeue_at-IsValid :
    (col : Option ℕ) (ids : List Bytes) (s : Store) → IsValid s → IsValid (requeue_at col ids s)
unfolding requeue_at ◌+ℤ◌
requeue_at-IsValid none ids s v = v
requeue_at-IsValid (some col) ids s v =
    let (all, prefix_ok, counted) = requeued-HasUuid col s.prefix ids v.prefix_ok in
    let es = (requeued col s.prefix ids).0 in
    record {
      counted =
          let total : blocks (es ++ s.entries) ≡ blocks es + blocks s.entries =
            count_p-append is_block es s.entries in
          ground (arith, v.counted);
      uuids = All-append HasUuid es s.entries all v.uuids;
      prefix_ok = prefix_ok;
    }

-- Putting documents back keeps the queue valid, whatever IDs and collection are given.
pub requeue-IsValid :
    (name : String) (ids : List Bytes) (s : Store) → IsValid s → IsValid (requeue name ids s)
unfolding requeue
requeue-IsValid name ids s v = requeue_at-IsValid (lookup name s.collection_enums) ids s v

-- The entries of a drained run whose collection byte is `col`.
unfoldable pub of_collection : ℕ → List Entry → List Entry
of_collection col [] = []
of_collection col (e ∷ es) =
    let rest = of_collection col es in if e.collection == col then e ∷ rest else rest

requeued_hit :
    (p : Bytes) (col : ℕ) (e : Entry) (ids : List Bytes)
    → HasNoDash p
    → IsUuid e.uuid
    → e.collection ≡ col
    → requeued col (some p) (restore_doc_id (some p) e.uuid ∷ ids)
      ≡ (e ∷ (requeued col (some p) ids).0, (requeued col (some p) ids).1)
unfolding requeued
requeued_hit p col e ids hp hu here =
    rw (extract_uuid-restore_doc_id (some p) e.uuid hp hu) (unfold capture in ground arith)

requeued-docs_of :
    (p : Bytes) (names : Map ℕ String) (name : String) (col : ℕ) (es : List Entry)
    → HasNoDash p
    → ((j : ℕ) → (lookup j names ≡ some name) ↔ (j ≡ col))
    → All HasUuid es
    → requeued col (some p) (docs_of (some p) names name es) ≡ (of_collection col es, some p)
unfolding requeued docs_of of_collection
requeued-docs_of p names name col [] hp hn h = refl
requeued-docs_of p names name col (e ∷ es) hp hn h =
    elim (Option-cases (lookup e.collection names)) [
      | inl missing ↦
          rw missing
            (rw (requeued-docs_of p names name col es hp hn h.1) (ground (arith, hn e.collection)))
      | inr (n, found) ↦ rw found (elim (Bool-cases (n == name)) [
        | inl same ↦
            let here : e.collection ≡ col =
              (hn e.collection).0 (found ∙ ap some ((==_iff n name).0 same)) in
            rw same (
              requeued_hit p col e (docs_of (some p) names name es) hp h.0 here
              ∙ ap (λ (r : List Entry × Option Bytes). (e ∷ r.0, r.1))
                  (requeued-docs_of p names name col es hp hn h.1)
              ∙ ground (arith, here))
        | inr other ↦ rw other (
            rw (requeued-docs_of p names name col es hp hn h.1)
              (ground (arith, (hn e.collection).1, ==_iff n name)))
      ])
    ]

-- The names and the bytes of a queue match at a collection: the byte `col` and no other has the
-- name, and the name has the byte.
pub record Registers (s : Store) (name : String) (col : ℕ) : Type 0 where
  pub named : (j : ℕ) → (lookup j s.collection_names ≡ some name) ↔ (j ≡ col)
  pub enumerated : lookup name s.collection_enums ≡ some col

-- Under a captured prefix, putting back the IDs that a drain reported for a registered collection
-- restores exactly the drained entries of that collection, in their order, in front of the queue,
-- and leaves the prefix and the names as they were.
pub requeue-docs_of :
    (p : Bytes) (name : String) (col : ℕ) (es : List Entry) (s : Store)
    → s.prefix ≡ some p
    → HasNoDash p
    → Registers s name col
    → All HasUuid es
    → ((requeue name (docs_of s.prefix s.collection_names name es) s).entries
        ≡ of_collection col es ++ s.entries)
      × ((requeue name (docs_of s.prefix s.collection_names name es) s).prefix ≡ s.prefix)
      × ((requeue name (docs_of s.prefix s.collection_names name es) s).collection_names
          ≡ s.collection_names)
      × ((requeue name (docs_of s.prefix s.collection_names name es) s).collection_enums
          ≡ s.collection_enums)
unfolding requeue
requeue-docs_of p name col es s hp hd reg h =
    let back = requeued-docs_of p s.collection_names name col es hd reg.named h in
    rw (reg.enumerated, hp, requeue_at) (rw back refl, rw back refl, refl, refl)
