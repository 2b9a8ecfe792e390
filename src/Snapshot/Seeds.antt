-- ===== src/Snapshot/Seeds.antt =====
-- The choice of snapshots to import, and their import in a host, at concrete snapshots.
use shinzo_host_client.Prelude.{
  ℕ, ◌≡◌, refl, some, List, [], ◌∷◌, true, nat_eq, string_eq, length, arith,
}
use shinzo_host_client.Prelude.Int.{pos}
use shinzo_host_client.Prelude.Results.{ok, err}
use shinzo_host_client.Pruner.DocId.{Bytes, decode_hex, encode_hex}
use shinzo_host_client.Snapshot.Merkle.{combine_pairs, reduce, first, compute_snapshot_merkle_root}
use shinzo_host_client.Snapshot.Import.{
  Services, decode_roots, verify_signature, read_snapshot_header, open_and_read_header,
  verify_header_against_sig, import_kvs, import_with_verification,
}
use shinzo_host_client.Prelude.{String, Bool, ◌+◌, contains, ◌||◌, any, false, none, if◌then◌else◌}
use shinzo_host_client.Prelude.Int.{ltb_ℤ}
use shinzo_host_client.Snapshot.Bootstrap.{Info, BlockRange, find_covering_snapshots}
use shinzo_host_client.Snapshot.Bootstrap.Covering.{is_named}
use shinzo_host_client.Snapshot.Bootstrap.Covering.Blocks.{IsWanted, find_covering_snapshots-blocks}
use shinzo_host_client.Prelude.{◌↔◌, All, Any}
use shinzo_host_client.Prelude.{◌==◌}
use shinzo_host_client.Prelude.Results.{Result}
use shinzo_host_client.Attestation.Post.{
  Store, not_a_map, post_attestation_record, prepared, lookup_existing_attestation, document_for,
  unless_error, extract_doc_id_from_result,
}
use shinzo_host_client.Snapshot.Seeding.{
  Seeding, create_snapshot_attestation, import_single_snapshot, import_snapshots,
}
use shinzo_host_client.Snapshot.Seeding.Seeded.{Seeded, import_snapshots-Seeded}
use shinzo_host_client.Snapshot.Samples.{digest, roots_two, sig_two, services_two}

-- Sorting by the start block.
placed : Info → List Info → List Info
placed snap [] = snap ∷ []
placed snap (s ∷ found) =
    let later = placed snap found in
    if ltb_ℤ snap.start_block s.start_block then snap ∷ s ∷ found else s ∷ later

sorted : List Info → List Info
sorted [] = []
sorted (snap ∷ found) = placed snap (sorted found)

any-placed :
    (p : Info → Bool) (snap : Info) (found : List Info)
    → any p (placed snap found) ≡ (p snap || any p found)
unfolding any placed
any-placed p snap [] = refl
any-placed p snap (s ∷ found) = ground (arith, any-placed p snap found)

any-sorted : (p : Info → Bool) (found : List Info) → any p (sorted found) ≡ any p found
unfolding any sorted
any-sorted p [] = refl
any-sorted p (snap ∷ found) = ground (arith, any-placed p snap (sorted found), any-sorted p found)

abbrev info : String → ℕ → Bool → Info
info name start is_signed = record {
  filename = name;
  start_block = pos start;
  end_block = pos (start + 9);
  size_bytes = pos 1;
  is_signed = is_signed;
  signature = none;
}

abbrev infos : List Info
infos = info "c" 30 true ∷ info "b" 20 false ∷ info "a" 10 true ∷ info "d" 90 true ∷ []

abbrev ranges : List BlockRange
ranges = record { start = pos 0; end = pos 35 } ∷ record { start = pos 30; end = pos 50 } ∷ []

-- The signed ones of the ranges, once each, by their start.
finds :
    find_covering_snapshots sorted infos ranges (pos 0, pos 0)
    ≡ info "a" 10 true ∷ info "c" 30 true ∷ []
unfolding find_covering_snapshots sorted contains placed
finds = refl

-- With the blocks from 12 to 25 stored, both are still found, since neither lies between those.
find_covering_snapshots-blocks_example :
    ((any (is_named "a") (find_covering_snapshots sorted infos ranges (pos 12, pos 25)) ≡ true)
      ↔ Any (λ r. Any (λ s. (s.filename ≡ "a") × IsWanted (pos 12, pos 25) r s) infos) ranges)
    × All
        (λ s. Any (λ r. IsWanted (pos 12, pos 25) r s) ranges)
        (find_covering_snapshots sorted infos ranges (pos 12, pos 25))
find_covering_snapshots-blocks_example =
    find_covering_snapshots-blocks (pos 12, pos 25) sorted infos ranges any-sorted
      (omega arith, (omega arith, tt))
      (omega arith, (omega arith, (omega arith, (omega arith, tt)))) "a"

-- A database that counts its pairs and its attestation records, and is never emptied.
abbrev growing : Services Unit ℕ
growing = record services_two {
  import_raw_kvs = λ m rest db. (some (length rest), db + length rest);
}

abbrev a_store : Store ℕ
a_store = record {
  collection_error = λ db. none;
  set_error = λ field. none;
  new_doc_error = λ r. none;
  exec_request = λ id db. not_a_map;
  new_doc_id = λ s. ok s;
  get_document = λ id db. err "not found";
  save_document = λ doc db. (none, db + 1);
  save_many_documents = λ docs db. (none, db);
}

abbrev a_download : String → Result String Bytes
a_download name = if name == "a" then ok (0 ∷ 0 ∷ 0 ∷ 1 ∷ 9 ∷ 5 ∷ 6 ∷ []) else err "not found"

abbrev a_seeding : Seeding Unit ℕ
a_seeding = record {
  services = growing;
  store = a_store;
  text = λ bytes. "root";
  download_snapshot = a_download;
}

abbrev seeds : List Info
seeds =
    record (info "a" 10 true) { signature = some (sig_two roots_two) }
    ∷ record (info "b" 20 true) { signature = some (sig_two roots_two) }
    ∷ info "c" 30 true
    ∷ []

-- One of three is downloaded and imported: two pairs, and its attestation.
seeds_run : import_snapshots a_seeding seeds 3 ≡ (1, 6)
unfolding import_snapshots import_single_snapshot create_snapshot_attestation digest
    verify_header_against_sig decode_roots decode_hex encode_hex compute_snapshot_merkle_root first
    reduce combine_pairs import_with_verification verify_signature open_and_read_header
    read_snapshot_header import_kvs post_attestation_record prepared lookup_existing_attestation
    document_for unless_error extract_doc_id_from_result
seeds_run = refl

import_snapshots-Seeded_example : Seeded a_seeding seeds 0 3 (import_snapshots a_seeding seeds 3)
import_snapshots-Seeded_example = import_snapshots-Seeded a_seeding seeds 3
