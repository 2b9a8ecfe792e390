-- ===== src/Pruner/Tests.antt =====
-- Examples for pkg/pruner: a queue of two blocks and a transaction, on which the theorems are applied.
use shinzo_host_client.Prelude.{
  ℕ, ==_iff, suc, ◌≤◌, ◌==◌, if◌then◌else◌, ◌<◌, ◌≡◌, ◌≢◌, ◌⊎◌, refl, String, true, false, none,
  some, [], ◌∷◌, ◌++◌, nat_eq, string_eq, Map, lookup, take, drop, arith, count_p,
}
use shinzo_host_client.Prelude.Int.{pos, wrap64, ◌*ℤ◌}
use shinzo_host_client.Pruner.DocId.{Bytes}
use shinzo_host_client.Pruner.DocId.RoundTrip.{IsUuid, HasNoDash}
use shinzo_host_client.Pruner.Config.{CollectionConfig, max_docs}
use shinzo_host_client.Pruner.Queue.{
  Entry, Store, blocks, new_event_queue, push, drain_blocks, requeue, len,
}
use shinzo_host_client.Pruner.Queue.Invariant.{IsValid}
use shinzo_host_client.Pruner.Queue.Reachable.{created, pushed, put_back, Reachable-IsValid}
use shinzo_host_client.Pruner.Queue.Blocks.{drain_blocks-Drained}
use shinzo_host_client.Pruner.Queue.Grouping.{Drained, docs_of}
use shinzo_host_client.Pruner.Documents.{Defra, failed, rows, absent}
use shinzo_host_client.Pruner.Purge.{Pruner, run_event_queue_prune}
use shinzo_host_client.Pruner.Purge.Retry.{is_purged, unpurged}
use shinzo_host_client.Pruner.Purge.Run.{run_event_queue_prune_idle, run_event_queue_prune-unpurged}
use shinzo_host_client.Pruner.Persist.{Files, rename_fails, none_fails, save, load_from_file}
use shinzo_host_client.Pruner.Persist.Atomic.{IsAtomic, save-IsAtomic, load_from_file-save}
use shinzo_host_client.Pruner.Lifecycle.{Runner}
use shinzo_host_client.Pruner.Queue.Requeue.{requeue-docs_of, Registers, of_collection}

abbrev a_uuid : Bytes
a_uuid = 0 ∷ 1 ∷ 2 ∷ 3 ∷ 4 ∷ 5 ∷ 6 ∷ 7 ∷ 8 ∷ 9 ∷ 10 ∷ 11 ∷ 12 ∷ 13 ∷ 14 ∷ 255 ∷ []

abbrev a_prefix : Bytes
a_prefix = 98 ∷ 97 ∷ []

abbrev names : Map ℕ String
names = (0, "Block") ∷ (1, "Transaction") ∷ []

abbrev enums : Map String ℕ
enums = ("Block", 0) ∷ ("Transaction", 1) ∷ []

abbrev a_block : Entry
a_block = record { collection = 0; uuid = a_uuid }

abbrev a_tx : Entry
a_tx = record { collection = 1; uuid = a_uuid }

abbrev a_store : Store
a_store = record {
  prefix = some a_prefix;
  queue = record {
    entries = a_block ∷ a_tx ∷ a_block ∷ [];
    block_count = pos 2;
    file_path = some (47 ∷ []);
    collection_names = names;
    collection_enums = enums;
  };
}

a_uuid-IsUuid : IsUuid a_uuid
a_uuid-IsUuid = record { size = refl; bytes = ground arith }

a_prefix-HasNoDash : HasNoDash a_prefix
a_prefix-HasNoDash = ground arith

a_store-IsValid : IsValid a_store
unfolding count_p
a_store-IsValid = record {
  counted = refl;
  uuids = (a_uuid-IsUuid, (a_uuid-IsUuid, (a_uuid-IsUuid, tt)));
  prefix_ok = a_prefix-HasNoDash;
}

abbrev a_config : CollectionConfig
a_config = record {
  block_collection = "Block";
  block_number_field = "number";
  dependent_collections = "Ethereum__Mainnet__Log" ∷ [];
}

Reachable-IsValid_example : IsValid (
    requeue "Block" []
      (push "Block" a_prefix (record { prefix = none; queue = new_event_queue a_config })))
Reachable-IsValid_example =
    Reachable-IsValid
      (requeue "Block" []
        (push "Block" a_prefix (record { prefix = none; queue = new_event_queue a_config })))
      (put_back "Block" [] (pushed "Block" a_prefix (created a_config)))

drain_blocks-Drained_example :
    ((2 ≤ blocks a_store.entries)
      × ((n : ℕ) × Drained (suc n) 2 a_store (drain_blocks (pos 2) a_store)
          × (blocks (take (suc n) a_store.entries) ≡ 2)
          × (blocks (take n a_store.entries) ≡ 1)))
    ⊎ ((blocks a_store.entries < 2) × (drain_blocks (pos 2) a_store ≡ (none, a_store)))
drain_blocks-Drained_example = drain_blocks-Drained 1 a_store a_store-IsValid

names_cases :
    (j : ℕ)
    → lookup j names
      ≡ (if 0 == j then some "Block" else if 1 == j then some "Transaction" else none)
unfolding lookup
names_cases j = refl

names_differ : ◌≢◌ {A = String} "Block" "Transaction"
names_differ e = no ((==_iff "Block" "Transaction").1 e)
  where
    no : false ≡ true → ⊥
    no h = ground arith

tx-Registers : Registers a_store "Transaction" 1
tx-Registers = record {
  named = λ j. ground (arith, names_cases j, names_differ);
  enumerated = unfold lookup in refl;
}

block-Registers : Registers a_store "Block" 0
block-Registers = record {
  named = λ j. ground (arith, names_cases j, names_differ);
  enumerated = unfold lookup in refl;
}

requeue-docs_of_example :
    ((requeue "Transaction"
        (docs_of a_store.prefix names "Transaction" (a_tx ∷ []))
        a_store).entries
      ≡ of_collection 1 (a_tx ∷ []) ++ a_store.entries)
    × ((requeue "Transaction"
          (docs_of a_store.prefix names "Transaction" (a_tx ∷ []))
          a_store).prefix
        ≡ a_store.prefix)
    × ((requeue "Transaction"
          (docs_of a_store.prefix names "Transaction" (a_tx ∷ []))
          a_store).collection_names
        ≡ names)
    × ((requeue "Transaction"
          (docs_of a_store.prefix names "Transaction" (a_tx ∷ []))
          a_store).collection_enums
        ≡ enums)
requeue-docs_of_example =
    requeue-docs_of a_prefix "Transaction" 1 (a_tx ∷ []) a_store refl a_prefix-HasNoDash
      tx-Registers (a_uuid-IsUuid, tt)

abbrev a_db : Defra
a_db = record {
  oldest = λ name field. rows absent;
  lowest = failed;
  highest = failed;
  has_collection = λ name. true;
  valid_doc_id = λ id. true;
  purges = λ name ids history. name == "Transaction";
}

-- One document is kept, so that a block and a transaction of the queue are due.
abbrev a_pruner : Pruner
a_pruner = record {
  cfg = record {
    enabled = true;
    max_blocks = pos 1;
    docs_per_block = pos 1;
    prune_threshold = pos 0;
    interval_seconds = pos 60;
    prune_history = false;
  };
  collections = record {
    block_collection = "Block";
    block_number_field = "number";
    dependent_collections = "Transaction" ∷ [];
  };
  metrics = record { last_prune_time = 0; total_blocks_pruned = pos 0; total_docs_pruned = pos 0 };
}

-- The byte of each collection.
abbrev a_byte : String → ℕ
a_byte name = if name == "Block" then 0 else 1

run_event_queue_prune-unpurged_example :
    let old = take 2 a_store.entries in
    of_collection 0 (run_event_queue_prune a_db 7 a_pruner a_store).1.entries
    ≡ unpurged
        (is_purged a_db false "Block" (docs_of a_store.prefix names "Block" old))
        (of_collection 0 old)
      ++ of_collection 0 (drop 2 a_store.entries)
unfolding max_docs len wrap64 ◌*ℤ◌
run_event_queue_prune-unpurged_example =
    run_event_queue_prune-unpurged a_db 7 a_pruner a_store a_prefix 1 a_byte "Block"
      ("Transaction" ∷ []) [] a_store-IsValid refl refl (omega arith) (omega arith) refl
      ((tx-Registers, λ e. ground arith), tt) block-Registers tt

run_event_queue_prune_idle_example :
    run_event_queue_prune a_db 7
      (record a_pruner { cfg = record a_pruner.cfg { max_blocks = pos 5 } })
      a_store
    ≡ (record a_pruner { cfg = record a_pruner.cfg { max_blocks = pos 5 } }, a_store)
unfolding max_docs len wrap64 ◌*ℤ◌
run_event_queue_prune_idle_example =
    run_event_queue_prune_idle a_db 7
      (record a_pruner { cfg = record a_pruner.cfg { max_blocks = pos 5 } }) a_store refl

abbrev no_files : Files
no_files = record { target = none; temporary = none }

abbrev a_path : Bytes
a_path = 47 ∷ []

abbrev a_fresh : Store
a_fresh = record {
  prefix = none;
  queue = record {
    entries = [];
    block_count = pos 0;
    file_path = none;
    collection_names = [];
    collection_enums = [];
  };
}

save-IsAtomic_example : IsAtomic (save rename_fails a_store no_files) a_store no_files
save-IsAtomic_example = save-IsAtomic rename_fails a_store no_files

load_from_file-save_example :
    ((load_from_file false a_path (save none_fails a_store no_files).1 a_fresh).0 ≡ some 3)
    × ((load_from_file false a_path (save none_fails a_store no_files).1 a_fresh).1.entries
        ≡ a_store.entries)
    × ((load_from_file false a_path (save none_fails a_store no_files).1 a_fresh).1.block_count
        ≡ pos 2)
    × ((load_from_file false a_path (save none_fails a_store no_files).1 a_fresh).1.prefix
        ≡ some a_prefix)
load_from_file-save_example =
    load_from_file-save a_path a_store a_fresh no_files 98 (97 ∷ []) refl (λ e. ground arith) refl
      refl

abbrev a_runner : Runner
a_runner = record {
  enabled = true;
  has_node = true;
  is_running = true;
  stop_closed = false;
  loops = 1;
}
