-- ===== src/Pruner/Persist.antt =====
-- `Save` and `LoadFromFile` of pkg/pruner/event_queue.go. The file system is the two files that the
-- queue touches: the one at its path and the temporary one beside it. A gob encoding is the value
-- that it decodes to; a file that does not decode is `garbage`.
pub mod Atomic
use shinzo_host_client.Prelude.{
  ℕ, String, Bool, true, false, Option, none, some, List, [], ◌∷◌, ◌==◌, nat_eq, string_eq,
  if◌then◌else◌, length, Map, insert,
}
use shinzo_host_client.Prelude.Int.{ℤ}
use shinzo_host_client.Pruner.DocId.{Bytes, prefix_text, capture}
use shinzo_host_client.Pruner.Queue.{Entry, EventQueue, Store}

pub record Snapshot : Type 0 where
  pub doc_id_prefix : Bytes
  pub entries : List Entry
  pub block_count : ℤ
  pub collection_names : Map ℕ String

pub data File : Type 0 where
  saved : Snapshot → File
  garbage : File

pub record Files : Type 0 where
  pub target : Option File
  pub temporary : Option File

-- The system call that fails, if any.
pub data Fault : Type 0 where
  none_fails create_fails encode_fails close_fails rename_fails : Fault

pub snapshot : Store → Snapshot
snapshot s = record {
  doc_id_prefix = prefix_text s.prefix;
  entries = s.entries;
  block_count = s.block_count;
  collection_names = s.collection_names;
}

write_snapshot : Fault → Snapshot → Files → Bool × Files
write_snapshot none_fails snap f = (true, record { target = some (saved snap); temporary = none })
write_snapshot create_fails snap f = (false, f)
write_snapshot encode_fails snap f = (false, record f { temporary = none })
write_snapshot close_fails snap f = (false, record f { temporary = none })
write_snapshot rename_fails snap f = (false, record f { temporary = none })

save_at : Option Bytes → Fault → Store → Files → Bool × Files
unfolding write_snapshot snapshot
save_at none fault s f = (true, f)
save_at (some path) fault s f =
    if length s.entries == 0
    then (true, record f { target = none })
    else write_snapshot fault (snapshot s) f

-- Whether the queue was saved, and the files after the call.
unfoldable pub save : Fault → Store → Files → Bool × Files
unfolding save_at
save fault s f = save_at s.file_path fault s f

merge_names : Map ℕ String → EventQueue → EventQueue
merge_names [] q = q
merge_names ((k, v) ∷ names) q = merge_names names (record q {
  collection_names = insert k v q.collection_names;
  collection_enums = insert v k q.collection_enums;
})

capture_saved : Option Bytes → Bytes → Option Bytes
capture_saved prefix [] = prefix
capture_saved prefix (b ∷ p) = capture prefix (b ∷ p)

-- The number of entries loaded, or `none` for an error.
restore : Option File → Store → Option ℕ × Store
unfolding merge_names capture_saved capture
restore none s = (some 0, s)
restore (some garbage) s = (none, s)
restore (some (saved snap)) s = (
  some (length snap.entries),
  record {
    prefix = capture_saved s.prefix snap.doc_id_prefix;
    queue =
        merge_names snap.collection_names
          (record s.queue { entries = snap.entries; block_count = snap.block_count });
  },
)

set_path : Bytes → Store → Store
set_path path s = record s { queue = record s.queue { file_path = some path } }

-- `denied`: the file is there and cannot be opened.
unfoldable pub load_from_file : Bool → Bytes → Files → Store → Option ℕ × Store
unfolding restore set_path
load_from_file denied path f s =
    if denied then (none, set_path path s) else restore f.target (set_path path s)
