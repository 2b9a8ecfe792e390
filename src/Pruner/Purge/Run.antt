-- ===== src/Pruner/Purge/Run.antt =====
-- A pruning run by the queue, from the queue to the queue.
use Prim.Native.Nat.{min}
use shinzo_host_client.Prelude.{
  ℕ, suc, ◌-◌, ◌^◌, ◌<◌, ◌≡◌, ◌≢◌, refl, ◌∙◌, ap, String, true, false, some, List, [], ◌∷◌, ◌++◌,
  nat_eq, All, All-map, All-take, take, drop, length, arith,
}
use shinzo_host_client.Prelude.Int.{pos, ◌-ℤ◌, leb_ℤ, wrap64, wrap64_small}
use shinzo_host_client.Pruner.Config.{max_docs}
use shinzo_host_client.Pruner.DocId.{Bytes}
use shinzo_host_client.Pruner.Documents.{Defra}
use shinzo_host_client.Pruner.Queue.{Entry, Store, docs_at, drain, drained, undrained, len, blocks}
use shinzo_host_client.Pruner.Queue.Grouping.{
  docs_of, drained-docs_of, entries-undrained, tables-undrained, drain_docs_positive,
}
use shinzo_host_client.Pruner.Queue.Invariant.{IsValid, HasUuid}
use shinzo_host_client.Pruner.Queue.Requeue.{of_collection, Registers}
use shinzo_host_client.Pruner.Purge.{
  Pruner, purge_collections, purge_from_drain_result, purge_drained, run_event_queue_prune,
}
use shinzo_host_client.Pruner.Purge.Retry.{
  SameTables, Registers-SameTables, is_purged, unpurged, purge_collections-append, loop_self,
}

-- A queue within its limit is left alone, and so are the metrics.
pub run_event_queue_prune_idle :
    (db : Defra) (now : ℕ) (p : Pruner) (s : Store)
    → leb_ℤ (pos (len s)) (max_docs p.cfg) ≡ true
    → run_event_queue_prune db now p s ≡ (p, s)
unfolding run_event_queue_prune
run_event_queue_prune_idle db now p s h = rw h

excess-eq : (n m : ℕ) → m < n → n < 2 ^ 63 → wrap64 (pos n -ℤ pos m) ≡ pos (suc (n - m - 1))
excess-eq n m h k = ap wrap64 (difference n m h) ∙ wrap64_small (suc (n - m - 1)) (omega arith)
  where
    difference : (a b : ℕ) → b < a → pos a -ℤ pos b ≡ pos (suc (a - b - 1))
    difference a b l = unfold ◌-ℤ◌ in ground arith

not_empty : (es : List Entry) → 0 < length es → es ≢ []
not_empty [] h e = absurd (omega arith)
not_empty (x ∷ es) h e = cc

run_drains :
    (db : Defra) (now : ℕ) (p : Pruner) (s : Store) (m : ℕ)
    → max_docs p.cfg ≡ pos m
    → m < len s
    → len s < 2 ^ 63
    → run_event_queue_prune db now p s
      ≡ purge_drained db now p (drain (len s - m) (blocks (take (len s - m) s.entries)) s)
run_drains db now p s m kept more small =
    unfold run_event_queue_prune in
    let over : leb_ℤ (pos (len s)) (pos m) ≡ false = ground arith in
    let all : min (suc (len s - m - 1)) (length s.entries) ≡ len s - m =
      unfold len in omega arith in
    rw (kept, over, excess-eq (len s) m more small)
      (ap (purge_drained db now p) (
        drain_docs_positive (len s - m - 1) s (not_empty s.entries (unfold len in omega arith))
        ∙ ap (λ n. drain n (blocks (take n s.entries)) s) all))

purge_drained-store :
    (db : Defra) (now : ℕ) (p : Pruner) (n seen : ℕ) (s : Store)
    → (purge_drained db now p (drain n seen s)).1
      ≡ (purge_collections db p.cfg.prune_history
          (drained n seen s)
          (p.collections.dependent_collections ++ p.collections.block_collection ∷ [])
          (undrained n seen s, pos 0)).0
purge_drained-store db now p n seen s =
    rw
      (purge_collections-append db p.cfg.prune_history (drained n seen s)
        p.collections.dependent_collections (p.collections.block_collection ∷ [])
        (undrained n seen s, pos 0))
      (unfold drain purge_drained purge_from_drain_result in refl)

undrained-SameTables : (n seen : ℕ) (s : Store) → SameTables s (undrained n seen s)
undrained-SameTables n seen s =
    let (a, b, c) = tables-undrained n seen s in record { prefix = a; names = b; enums = c }

-- A collection with a byte of its own, other than that of `name`.
abbrev pub Registered : Store → (String → ℕ) → String → String → Type 0
Registered s byte name n = Registers s n (byte n) × (byte n ≢ byte name)

-- A run on a valid queue with m documents to keep and more than that queued. For a collection that
-- stands once in the list of those purged, where each collection of the list has a byte of its own:
-- if its oldest documents, those beyond the m newest of the queue, were purged, the queue keeps
-- exactly its others; if their purge failed, the queue keeps all documents of the collection. Both
-- in the order of their arrival.
pub run_event_queue_prune-unpurged :
    (db : Defra) (now : ℕ) (p : Pruner) (s : Store) (prefix : Bytes) (m : ℕ) (byte : String → ℕ)
    (name : String) (before after : List String)
    → IsValid s
    → s.prefix ≡ some prefix
    → max_docs p.cfg ≡ pos m
    → m < len s
    → len s < 2 ^ 63
    → p.collections.dependent_collections ++ p.collections.block_collection ∷ []
      ≡ before ++ name ∷ after
    → All (Registered s byte name) before
    → Registers s name (byte name)
    → All (Registered s byte name) after
    → let old = take (len s - m) s.entries in
      of_collection (byte name) (run_event_queue_prune db now p s).1.entries
      ≡ unpurged
          (is_purged db p.cfg.prune_history name (docs_of s.prefix s.collection_names name old))
          (of_collection (byte name) old)
        ++ of_collection (byte name) (drop (len s - m) s.entries)
run_event_queue_prune-unpurged db now p s prefix m byte name before after v captured kept more small
      split earlier reg regs =
    let n = len s - m in
    let old = take n s.entries in
    let seen = blocks old in
    let t = undrained n seen s in
    let same = undrained-SameTables n seen s in
    let reports : (x : String)
        → docs_at x (drained n seen s).doc_ids_by_collection
          ≡ docs_of t.prefix t.collection_names x old =
      λ x. rw (same.prefix, same.names) (drained-docs_of n seen s x) in
    let own = All-map (Registered s byte name) (Registered t byte name) in
    let move : (x : String) → Registered s byte name x → Registered t byte name x =
      λ x h. (Registers-SameTables same h.0, h.1) in
    rw (run_drains db now p s m kept more small, purge_drained-store db now p n seen s, split)
      (rw (← drained-docs_of n seen s name, ← entries-undrained n seen s)
        (loop_self prefix old t (same.prefix ∙ captured) (rw captured at v.prefix_ok)
          (All-take HasUuid n s.entries v.uuids) db p.cfg.prune_history (drained n seen s) reports
          byte name before after t (pos 0) (own before move earlier) (Registers-SameTables same reg)
          (own after move regs) (record { prefix = refl; names = refl; enums = refl })))
