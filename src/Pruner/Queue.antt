-- ===== src/Pruner/Queue.antt =====
-- pkg/pruner/event_queue.go and queue.go: the FIFO queue of replicated documents. The mutex makes
-- each method one step. `Store` is the queue with the package's captured prefix, which every method
-- that reads a document ID may set. Numbers of entries in memory are far below 2 ^ 63, so the `int`
-- arithmetic on them does not wrap.
pub mod Invariant
pub mod Blocks
pub mod Grouping
pub mod Requeue
pub mod Reachable
use shinzo_host_client.Prelude.{
  ℕ, suc, ◌+◌, String, Bool, ◌&&◌, Option, none, some, List, [], ◌∷◌, ◌++◌, ◌==◌, nat_eq, string_eq,
  if◌then◌else◌, length, take, drop, count_p, Map, lookup, insert, leb,
}
use shinzo_host_client.Prelude.Int.{ℤ, pos, ◌+ℤ◌, ◌-ℤ◌, leb_ℤ}
use shinzo_host_client.Pruner.Config.{CollectionConfig}
use shinzo_host_client.Pruner.DocId.{Bytes, Result, ok, err, extract_uuid, restore_doc_id}

pub record Entry : Type 0 where
  pub collection : ℕ  -- a byte
  pub uuid : Bytes

abbrev pub col_block : ℕ
col_block = 0

abbrev pub col_tx : ℕ
col_tx = 1

abbrev pub col_log : ℕ
col_log = 2

abbrev pub col_ale : ℕ
col_ale = 3

abbrev pub col_batch_sig : ℕ
col_batch_sig = 4

abbrev pub col_block_sig : ℕ
col_block_sig = 5

abbrev pub col_att_rec : ℕ
col_att_rec = 6

pub record EventQueue : Type 0 where
  pub entries : List Entry
  pub block_count : ℤ
  pub file_path : Option Bytes  -- `none` for the empty path
  pub collection_names : Map ℕ String
  pub collection_enums : Map String ℕ

pub record DrainResult : Type 0 where
  pub doc_ids_by_collection : Map String (List Bytes)
  pub block_count : ℕ

pub record Store : Type 0 where
  pub prefix : Option Bytes
  pub queue : EventQueue
  pub open queue use *

abbrev pub is_block : Entry → Bool
is_block e = e.collection == col_block

abbrev pub blocks : List Entry → ℕ
blocks = count_p is_block

abbrev known_collections : Map String ℕ
known_collections =
    ("Ethereum__Mainnet__Transaction", col_tx)
    ∷ ("Ethereum__Mainnet__Log", col_log)
    ∷ ("Ethereum__Mainnet__AccessListEntry", col_ale)
    ∷ ("Ethereum__Mainnet__BatchSignature", col_batch_sig)
    ∷ ("Ethereum__Mainnet__BlockSignature", col_block_sig)
    ∷ ("Ethereum__Mainnet__AttestationRecord", col_att_rec)
    ∷ []

register : String → Option ℕ → EventQueue → EventQueue
register name none q = q
register name (some enum) q = record q {
  collection_names = insert enum name q.collection_names;
  collection_enums = insert name enum q.collection_enums;
}

register_all : List String → EventQueue → EventQueue
unfolding register
register_all [] q = q
register_all (name ∷ names) q = register_all names (register name (lookup name known_collections) q)

abbrev empty_queue : CollectionConfig → EventQueue
empty_queue collections = record {
  entries = [];
  block_count = pos 0;
  file_path = none;
  collection_names = (col_block, collections.block_collection) ∷ [];
  collection_enums = (collections.block_collection, col_block) ∷ [];
}

unfoldable pub new_event_queue : CollectionConfig → EventQueue
unfolding register_all insert lookup
new_event_queue collections =
    register_all collections.dependent_collections (empty_queue collections)

-- The append of `Push`, once the document ID and the collection are known.
append_entry : Result Bytes → Option ℕ → EventQueue → EventQueue
append_entry (err x) col q = q
append_entry (ok uuid) none q = q
append_entry (ok uuid) (some col) q = record q {
  entries = q.entries ++ (record { collection = col; uuid = uuid }) ∷ [];
  block_count = if col == col_block then q.block_count +ℤ pos 1 else q.block_count;
}

unfoldable pub push : String → Bytes → Store → Store
unfolding append_entry
push collection_name doc_id s =
    let (uuid, prefix) = extract_uuid s.prefix doc_id in
    record {
      prefix = prefix;
      queue = append_entry uuid (lookup collection_name s.collection_enums) s.queue;
    }

-- Reading a Go map of slices: a missing key reads as the empty slice.
unfoldable pub docs_at : String → Map String (List Bytes) → List Bytes
docs_at name m = elim (lookup name m) [ none ↦ [] | some docs ↦ docs ]

append_doc : String → Bytes → Map String (List Bytes) → Map String (List Bytes)
append_doc name doc_id m = insert name (docs_at name m ++ doc_id ∷ []) m

-- The grouping loop of the two drains, with the result so far.
group : Option Bytes → Map ℕ String → List Entry → Map String (List Bytes) → Map String (List Bytes)
unfolding append_doc
group prefix names [] result = result
group prefix names (e ∷ es) result = group prefix names es (elim (lookup e.collection names) [
  | none ↦ result
  | some name ↦ append_doc name (restore_doc_id prefix e.uuid) result
])

-- Both drains take the first `n` entries, of which `seen` are blocks: the result that they
-- return, and the queue that they leave.
pub drained : ℕ → ℕ → Store → DrainResult
unfolding group
drained n seen s = record {
  doc_ids_by_collection = group s.prefix s.collection_names (take n s.entries) [];
  block_count = seen;
}

pub undrained : ℕ → ℕ → Store → Store
undrained n seen s = record s {
  queue = record s.queue { entries = drop n s.entries; block_count = s.block_count -ℤ pos seen };
}

unfoldable pub drain : ℕ → ℕ → Store → Option DrainResult × Store
unfolding drained undrained
drain n seen s = (some (drained n seen s), undrained n seen s)

clamp : ℤ → ℕ → ℕ
clamp (pos n) len = if leb n len then n else len
clamp (ℤ.negsuc n) len = 0

unfoldable pub drain_docs : ℤ → Store → Option DrainResult × Store
unfolding drain clamp
drain_docs count s =
    if length s.entries == 0
    then (none, s)
    else if leb_ℤ count (pos 0)
    then (none, s)
    else let n = clamp count (length s.entries) in drain n (blocks (take n s.entries)) s

abbrev seen_after : Entry → ℕ → ℕ
seen_after e seen = if is_block e then suc seen else seen

-- The walk of `DrainBlocks`: the blocks seen, and the cut, 0 if `count` blocks were not found.
find_cutoff : ℤ → ℕ → ℕ → List Entry → ℕ × ℕ
find_cutoff count i seen [] = (seen, 0)
find_cutoff count i seen (e ∷ es) =
    let seen' = seen_after e seen in
    let rest = find_cutoff count (suc i) seen' es in
    if is_block e && leb_ℤ count (pos seen') then (seen', suc i) else rest

unfoldable pub drain_blocks : ℤ → Store → Option DrainResult × Store
unfolding find_cutoff drain
drain_blocks count s =
    if leb_ℤ s.block_count (pos 0)
    then (none, s)
    else if leb_ℤ count (pos 0)
    then (none, s)
    else let (seen, cutoff) = find_cutoff count 0 0 s.entries in
      if cutoff == 0 then (none, s) else drain cutoff seen s

-- An ID that cannot be read is skipped.
cons_entry : ℕ → Result Bytes → List Entry → List Entry
cons_entry col (err x) es = es
cons_entry col (ok u) es = record { collection = col; uuid = u } ∷ es

-- The entries of `Requeue`, in the order given, and the prefix after reading the IDs.
pub requeued : ℕ → Option Bytes → List Bytes → List Entry × Option Bytes
unfolding cons_entry
requeued col prefix [] = ([], prefix)
requeued col prefix (doc_id ∷ rest) =
    let (uuid, prefix') = extract_uuid prefix doc_id in
    let (es, prefix'') = requeued col prefix' rest in (cons_entry col uuid es, prefix'')

requeue_at : Option ℕ → List Bytes → Store → Store
unfolding requeued
requeue_at none doc_ids s = s
requeue_at (some col) doc_ids s =
    let (es, prefix) = requeued col s.prefix doc_ids in
    record {
      prefix = prefix;
      queue = record s.queue {
        entries = es ++ s.entries;
        block_count = s.block_count +ℤ pos (if col == col_block then length es else 0);
      };
    }

unfoldable pub requeue : String → List Bytes → Store → Store
unfolding requeue_at
requeue collection_name doc_ids s = requeue_at (lookup collection_name s.collection_enums) doc_ids s

-- `Len`
unfoldable pub len : Store → ℕ
len s = length s.entries
