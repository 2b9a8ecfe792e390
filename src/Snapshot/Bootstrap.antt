-- ===== src/Snapshot/Bootstrap.antt =====
-- pkg/host/snapshot_bootstrap.go: which snapshots of an indexer are to be imported. DefraDB's answer
-- to a query of block numbers is `none` where it has errors or does not decode.
pub mod Covering
use shinzo_host_client.Prelude.{
  String, Bool, true, false, not, ◌&&◌, Option, none, some, List, [], ◌∷◌, ◌++◌, ◌==◌, string_eq,
  if◌then◌else◌, contains,
}
use shinzo_host_client.Prelude.Int.{ℤ, pos, ltb_ℤ, leb_ℤ}
use shinzo_host_client.Snapshot.Import.{SignatureData}

pub record Info : Type 0 where
  pub filename : String
  pub start_block : ℤ
  pub end_block : ℤ
  pub size_bytes : ℤ
  pub is_signed : Bool
  pub signature : Option SignatureData

pub record BlockRange : Type 0 where
  pub start : ℤ
  pub end : ℤ

-- The lowest and the highest block number in the database, from the answers to the two queries.
unfoldable pub get_existing_block_range : Option (List ℤ) → Option (List ℤ) → ℤ × ℤ
get_existing_block_range none lowest = (pos 0, pos 0)
get_existing_block_range (some []) lowest = (pos 0, pos 0)
get_existing_block_range (some (high ∷ _)) none = (pos 0, high)
get_existing_block_range (some (high ∷ _)) (some []) = (pos 0, high)
get_existing_block_range (some (high ∷ _)) (some (low ∷ _)) = (low, high)

unfoldable pub overlaps : BlockRange → Info → Bool
overlaps r snap = not (ltb_ℤ snap.end_block r.start) && not (ltb_ℤ r.end snap.start_block)

unfoldable pub is_stored : ℤ × ℤ → Info → Bool
is_stored (low, high) snap =
    ltb_ℤ (pos 0) high && leb_ℤ low snap.start_block && leb_ℤ snap.end_block high

-- The snapshots needed so far, and their file names.
abbrev Found : Type 0
Found = List Info × List String

consider : ℤ × ℤ → BlockRange → Info → Found → Found
unfolding overlaps is_stored
consider existing r snap (needed, seen) =
    if not (overlaps r snap)
    then (needed, seen)
    else if not snap.is_signed
    then (needed, seen)
    else if is_stored existing snap
    then (needed, seen)
    else if contains seen snap.filename
    then (needed, seen)
    else (needed ++ snap ∷ [], snap.filename ∷ seen)

consider_all : ℤ × ℤ → BlockRange → List Info → Found → Found
unfolding consider
consider_all existing r [] found = found
consider_all existing r (snap ∷ available) found =
    consider_all existing r available (consider existing r snap found)

consider_ranges : ℤ × ℤ → List Info → List BlockRange → Found → Found
unfolding consider_all
consider_ranges existing available [] found = found
consider_ranges existing available (r ∷ ranges) found =
    consider_ranges existing available ranges (consider_all existing r available found)

-- `sort` is `sort.Slice` by the start block.
unfoldable pub find_covering_snapshots :
    (List Info → List Info) → List Info → List BlockRange → ℤ × ℤ → List Info
unfolding consider_ranges
find_covering_snapshots sort available ranges existing =
    sort (consider_ranges existing available ranges ([], [])).0
