-- ===== src/Pruner/Documents.antt =====
-- The document operations and block queries of pkg/pruner/pruner.go. DefraDB is a parameter: what
-- it answers to a query and which of its calls succeed, for the time of one pruning run.
use shinzo_host_client.Prelude.{
  ℕ, String, Bool, not, Option, none, some, List, [], ◌∷◌, nat_eq, string_eq, if◌then◌else◌, length,
  Map, lookup,
}
use shinzo_host_client.Prelude.Int.{ℤ, pos, ltb_ℤ}
use shinzo_host_client.Pruner.DocId.{Bytes}

-- The dynamic values of a query result. A float is given by its integral part, which is what
-- `int64(v)` keeps.
pub data Value : Type 0 where
  float64 int64 int : ℤ → Value
  text : Bytes → Value
  other : Value

abbrev pub Document : Type 0
Document = Map String Value

-- `[]map[string]any`, or `[]any` with maps and other items, or any other type.
pub data Rows : Type 0 where
  documents : List Document → Rows
  items : List (Option Document) → Rows
  absent : Rows

-- The answer to a query: errors, data that is no map, or the collection's entry in the map.
pub data Answer : Type 0 where
  failed malformed : Answer
  rows : Rows → Answer

pub record Defra : Type 0 where
  pub oldest : String → String → Answer  -- order ASC, limit 50000
  pub lowest : Answer  -- order ASC, limit 1
  pub highest : Answer  -- order DESC, limit 1
  pub has_collection : String → Bool
  pub valid_doc_id : Bytes → Bool
  pub purges : String → List Bytes → Bool → Bool

unfoldable pub parse_block_number : Option Value → ℤ
parse_block_number (some (float64 n)) = n
parse_block_number (some (int64 n)) = n
parse_block_number (some (int n)) = n
parse_block_number _ = pos 0

cons_doc_id : Option Value → List Bytes → List Bytes
cons_doc_id (some (text id)) ids = id ∷ ids
cons_doc_id _ ids = ids

-- Both loops of `queryOldestDocIDs`; an item that is no map is skipped.
oldest_ids : String → ℤ → List (Option Document) → List Bytes
unfolding parse_block_number cons_doc_id
oldest_ids field max_block [] = []
oldest_ids field max_block (none ∷ ds) = oldest_ids field max_block ds
oldest_ids field max_block (some d ∷ ds) =
    let rest = oldest_ids field max_block ds in
    if ltb_ℤ max_block (parse_block_number (lookup field d))
    then []
    else cons_doc_id (lookup "_docID" d) rest

all_some : List Document → List (Option Document)
all_some [] = []
all_some (d ∷ ds) = some d ∷ all_some ds

unfoldable pub query_oldest_doc_ids : Answer → String → ℤ → Option (List Bytes)
unfolding oldest_ids all_some
query_oldest_doc_ids failed field max_block = none
query_oldest_doc_ids malformed field max_block = some []
query_oldest_doc_ids (rows (documents ds)) field max_block =
    some (oldest_ids field max_block (all_some ds))
query_oldest_doc_ids (rows (items ds)) field max_block = some (oldest_ids field max_block ds)
query_oldest_doc_ids (rows absent) field max_block = some []

unfoldable pub valid_ids : (Bytes → Bool) → List Bytes → List Bytes
valid_ids valid [] = []
valid_ids valid (id ∷ ids) = let rest = valid_ids valid ids in if valid id then id ∷ rest else rest

-- `purgeByDocIDs`: the number of documents purged, or an error.
unfoldable pub purge_by_doc_ids : Defra → Bool → String → List Bytes → Option ℕ
unfolding valid_ids
purge_by_doc_ids db prune_history name [] = some 0
purge_by_doc_ids db prune_history name (id ∷ ids) =
    let valid = valid_ids db.valid_doc_id (id ∷ ids) in
    if not (db.has_collection name)
    then none
    else if db.purges name valid prune_history
    then some (length valid)
    else none

first_number : String → List (Option Document) → ℤ
unfolding parse_block_number
first_number field [] = pos 0
first_number field (none ∷ ds) = pos 0
first_number field (some d ∷ ds) = parse_block_number (lookup field d)

-- `extractBlockNumber`
unfoldable pub extract_block_number : String → Answer → Option ℤ
unfolding first_number all_some
extract_block_number field failed = none
extract_block_number field malformed = some (pos 0)
extract_block_number field (rows (documents ds)) = some (first_number field (all_some ds))
extract_block_number field (rows (items ds)) = some (first_number field ds)
extract_block_number field (rows absent) = some (pos 0)
