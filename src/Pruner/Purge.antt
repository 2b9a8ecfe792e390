-- ===== src/Pruner/Purge.antt =====
-- pkg/pruner/pruner.go: one pruning run, by the queue or by block range. A run returns the new
-- state and whether it failed; each lock region of the source is one step of the state.
pub mod Retry
pub mod Run
use shinzo_host_client.Prelude.{
  ℕ, String, Bool, true, false, Option, none, some, List, [], ◌∷◌, ◌==◌, nat_eq, if◌then◌else◌,
}
use shinzo_host_client.Prelude.Int.{ℤ, pos, ◌+ℤ◌, ◌-ℤ◌, leb_ℤ, wrap64}
use shinzo_host_client.Pruner.Config.{Config, CollectionConfig, max_docs}
use shinzo_host_client.Pruner.DocId.{Bytes}
use shinzo_host_client.Pruner.Documents.{
  Defra, query_oldest_doc_ids, purge_by_doc_ids, extract_block_number,
}
use shinzo_host_client.Pruner.Queue.{Store, DrainResult, docs_at, drain_docs, requeue, len}

pub record Metrics : Type 0 where
  pub last_prune_time : ℕ
  pub total_blocks_pruned : ℤ
  pub total_docs_pruned : ℤ

pub record Pruner : Type 0 where
  pub cfg : Config
  pub collections : CollectionConfig
  pub metrics : Metrics

-- The update of the metrics that ends a run.
unfoldable pub note_run : ℕ → ℤ → ℤ → Metrics → Metrics
note_run now blocks docs m = record {
  last_prune_time = now;
  total_blocks_pruned = wrap64 (m.total_blocks_pruned +ℤ blocks);
  total_docs_pruned = wrap64 (m.total_docs_pruned +ℤ docs);
}

settle : Option ℕ → String → List Bytes → Store × ℤ → Store × ℤ
settle none name ids (s, total) = (requeue name ids s, total)
settle (some purged) name ids (s, total) = (s, wrap64 (total +ℤ pos purged))

-- One collection of `purgeFromDrainResult`: purged, or put back if the purge fails.
purge_listed : Defra → Bool → String → List Bytes → Store × ℤ → Store × ℤ
unfolding settle
purge_listed db history name [] acc = acc
purge_listed db history name (id ∷ ids) acc =
    settle (purge_by_doc_ids db history name (id ∷ ids)) name (id ∷ ids) acc

unfoldable pub purge_collections : Defra → Bool → DrainResult → List String → Store × ℤ → Store × ℤ
unfolding purge_listed
purge_collections db history r [] acc = acc
purge_collections db history r (name ∷ names) acc =
    purge_collections db history r names
      (purge_listed db history name (docs_at name r.doc_ids_by_collection) acc)

-- Dependent collections first, the block collection last.
unfoldable pub purge_from_drain_result : Defra → ℕ → DrainResult → Pruner → Store → Pruner × Store
unfolding purge_collections note_run
purge_from_drain_result db now r p s =
    let history = p.cfg.prune_history in
    let acc = purge_collections db history r p.collections.dependent_collections (s, pos 0) in
    let (s', total) = purge_collections db history r (p.collections.block_collection ∷ []) acc in
    (record p { metrics = note_run now (pos r.block_count) total p.metrics }, s')

purge_drained : Defra → ℕ → Pruner → Option DrainResult × Store → Pruner × Store
unfolding purge_from_drain_result
purge_drained db now p (none, s) = (p, s)
purge_drained db now p (some r, s) = purge_from_drain_result db now r p s

-- `runEventQueuePrune`, which never fails.
unfoldable pub run_event_queue_prune : Defra → ℕ → Pruner → Store → Pruner × Store
unfolding purge_drained max_docs len
run_event_queue_prune db now p s =
    let total_docs = pos (len s) in
    let kept = max_docs p.cfg in
    if leb_ℤ total_docs kept
    then (p, s)
    else purge_drained db now p (drain_docs (wrap64 (total_docs -ℤ kept)) s)

add_purged : Option ℕ → ℤ → ℤ
add_purged none total = total
add_purged (some n) total = wrap64 (total +ℤ pos n)

purge_answer : Defra → Bool → String → Option (List Bytes) → ℤ → ℤ
unfolding add_purged
purge_answer db history name none total = total
purge_answer db history name (some ids) total =
    add_purged (purge_by_doc_ids db history name ids) total

-- The loop over the dependent collections of `pruneBlockRange`: failures are logged and skipped.
prune_dependents : Defra → Bool → ℤ → List String → ℤ → ℤ
unfolding purge_answer
prune_dependents db history end_block [] total = total
prune_dependents db history end_block (name ∷ names) total =
    prune_dependents db history end_block names (
      purge_answer db history name
        (query_oldest_doc_ids (db.oldest name "blockNumber") "blockNumber" end_block) total)

-- The block collection: an error keeps the total so far.
prune_blocks : Defra → Bool → String → Option (List Bytes) → ℤ → ℤ × Bool
prune_blocks db history name none total = (total, false)
prune_blocks db history name (some ids) total = elim (purge_by_doc_ids db history name ids) [
  | none ↦ (total, false)
  | some n ↦ (wrap64 (total +ℤ pos n), true)
]

-- The total purged, and whether the run succeeded.
unfoldable pub prune_block_range : Defra → Pruner → ℤ → ℤ × Bool
unfolding prune_dependents prune_blocks
prune_block_range db p end_block =
    let c = p.collections in
    prune_blocks db p.cfg.prune_history c.block_collection
      (query_oldest_doc_ids (db.oldest c.block_collection c.block_number_field) c.block_number_field
        end_block)
      (prune_dependents db p.cfg.prune_history end_block c.dependent_collections (pos 0))

finish_range : ℕ → ℤ → Pruner → ℤ × Bool → Pruner × Bool
unfolding note_run
finish_range now excess p (purged, false) = (p, false)
finish_range now excess p (purged, true) =
    (record p { metrics = note_run now excess purged p.metrics }, true)

-- Blocks `lowest` to the cut are pruned when there are more than `max_blocks`.
prune_excess : Defra → ℕ → Pruner → ℤ → ℤ → Pruner × Bool
unfolding finish_range prune_block_range
prune_excess db now p lowest highest =
    let count = wrap64 (wrap64 (highest -ℤ lowest) +ℤ pos 1) in
    if leb_ℤ count p.cfg.max_blocks
    then (p, true)
    else let excess = wrap64 (count -ℤ p.cfg.max_blocks) in
      let cutoff = wrap64 (wrap64 (lowest +ℤ excess) -ℤ pos 1) in
      finish_range now excess p (prune_block_range db p cutoff)

is_zero : ℤ → Bool
is_zero (pos n) = n == 0
is_zero (ℤ.negsuc n) = false

lowest_known : Defra → ℕ → Pruner → ℤ → Option ℤ → Pruner × Bool
unfolding is_zero prune_excess
lowest_known db now p highest none = (p, false)
lowest_known db now p highest (some lowest) =
    if is_zero lowest then (p, true) else prune_excess db now p lowest highest

highest_known : Defra → ℕ → Pruner → Option ℤ → Pruner × Bool
unfolding is_zero lowest_known
highest_known db now p none = (p, false)
highest_known db now p (some highest) =
    if is_zero highest
    then (p, true)
    else lowest_known db now p highest
        (extract_block_number p.collections.block_number_field db.lowest)

unfoldable pub filter_based_prune : Defra → ℕ → Pruner → Pruner × Bool
unfolding highest_known
filter_based_prune db now p =
    highest_known db now p (extract_block_number p.collections.block_number_field db.highest)

cleanup_between : Defra → ℕ → Pruner → Option ℤ → Option ℤ → Pruner × Bool
unfolding is_zero prune_excess
cleanup_between db now p none highest = (p, false)
cleanup_between db now p (some lowest) none = (p, false)
cleanup_between db now p (some lowest) (some highest) =
    if is_zero lowest
    then (if is_zero highest then (p, true) else prune_excess db now p lowest highest)
    else prune_excess db now p lowest highest

unfoldable pub startup_cleanup : Defra → ℕ → Pruner → Pruner × Bool
unfolding cleanup_between
startup_cleanup db now p =
    let field = p.collections.block_number_field in
    cleanup_between db now p (extract_block_number field db.lowest)
      (extract_block_number field db.highest)

-- `runPrune`: by the queue if one is set.
unfoldable pub run_prune : Defra → ℕ → Pruner → Option Store → Pruner × Option Store × Bool
unfolding filter_based_prune run_event_queue_prune
run_prune db now p none = let (p', done) = filter_based_prune db now p in (p', none, done)
run_prune db now p (some s) = let (p', s') = run_event_queue_prune db now p s in (p', some s', true)
