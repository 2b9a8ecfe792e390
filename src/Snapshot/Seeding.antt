-- ===== src/Snapshot/Seeding.antt =====
-- pkg/host/snapshot_bootstrap.go: the import of the snapshots that were found, each from its
-- download. Texts that the importer keeps as bytes become strings by `text`.
pub mod Seeded
use shinzo_host_client.Prelude.{ℕ, ◌+◌, String, Option, none, some, List, [], ◌∷◌, map}
use shinzo_host_client.Prelude.Results.{Result, ok, err}
use shinzo_host_client.Prelude.Text.{wrap, show_int}
use shinzo_host_client.Pruner.DocId.{Bytes}
use shinzo_host_client.Attestation.Record.{Record}
use shinzo_host_client.Attestation.Post.{Store, post_attestation_record}
use shinzo_host_client.Snapshot.Import.{
  Error, Services, SignatureData, ImportResult, import_with_verification,
}
use shinzo_host_client.Snapshot.Bootstrap.{Info}

pub data SeedError : Type 0 where
  missing_signature : SeedError
  download : String → SeedError
  import_failed : Error → SeedError

-- What the import asks for: the importer's services, the store of attestation records, and the
-- bytes of a downloaded file, or an error.
pub record Seeding (Key Database : Type 0) : Type 0 where
  pub services : Services Key Database
  pub store : Store Database
  pub text : Bytes → String
  pub download_snapshot : String → Result String Bytes

unfoldable pub snapshot_record : (Bytes → String) → SignatureData → Record
unfolding wrap show_int
snapshot_record text sig = record {
  attested_doc_id =
      wrap "snapshot:" (wrap (show_int sig.start_block) (wrap "-" (show_int sig.end_block)));
  source_doc_ids = sig.signature_identity ∷ [];
  cids = map text sig.block_sig_merkle_roots;
  doc_type = "Snapshot";
  vote_count = 1;
}

module _ {Key Database : Type 0} (seeding : Seeding Key Database) where
  open seeding use {services, store, text, download_snapshot}

  -- An error of the post is only logged.
  attested : List Bytes → SignatureData → Database → Database
  unfolding snapshot_record post_attestation_record
  attested [] sig db = db
  attested (root ∷ roots) sig db = (post_attestation_record store (snapshot_record text sig) db).1

  unfoldable pub create_snapshot_attestation : SignatureData → Database → Database
  unfolding attested
  create_snapshot_attestation sig db = attested sig.block_sig_merkle_roots sig db

  then_attest : SignatureData → Result Error ImportResult × Database → Option SeedError × Database
  unfolding create_snapshot_attestation
  then_attest sig (err e, db) = (some (SeedError.import_failed e), db)
  then_attest sig (ok result, db) = (none, create_snapshot_attestation sig db)

  downloaded : SignatureData → Result String Bytes → Database → Option SeedError × Database
  unfolding then_attest import_with_verification
  downloaded sig (err e) db = (some (SeedError.download e), db)
  downloaded sig (ok file) db =
      then_attest sig (import_with_verification services (some file) sig db)

  signed_import : String → Option SignatureData → Database → Option SeedError × Database
  unfolding downloaded
  signed_import filename none db = (some SeedError.missing_signature, db)
  signed_import filename (some sig) db = downloaded sig (download_snapshot filename) db

  unfoldable pub import_single_snapshot : Info → Database → Option SeedError × Database
  unfolding signed_import
  import_single_snapshot snap db = signed_import snap.filename snap.signature db

  count_import : Option SeedError × Database → ℕ → ℕ × Database
  count_import (none, db) imported = (imported + 1, db)
  count_import (some e, db) imported = (imported, db)

  import_each : List Info → ℕ × Database → ℕ × Database
  unfolding import_single_snapshot count_import
  import_each [] (imported, db) = (imported, db)
  import_each (snap ∷ needed) (imported, db) =
      import_each needed (count_import (import_single_snapshot snap db) imported)

  unfoldable pub import_snapshots : List Info → Database → ℕ × Database
  unfolding import_each
  import_snapshots needed db = import_each needed (0, db)
