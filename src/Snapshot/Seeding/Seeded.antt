-- ===== src/Snapshot/Seeding/Seeded.antt =====
-- What the import of the found snapshots does to the database: snapshot_bootstrap.go.
use shinzo_host_client.Prelude.{
  ℕ, ◌+◌, ◌≡◌, ◌≢◌, ◌∙◌, refl, ap, inl, inr, ◌⊎◌, arith, String, Option, none, some, List, [], ◌∷◌,
  map,
}
use shinzo_host_client.Prelude.Results.{Result, ok, err}
use shinzo_host_client.Prelude.Text.{wrap, show_int}
use shinzo_host_client.Pruner.DocId.{Bytes}
use shinzo_host_client.Attestation.Record.{Record}
use shinzo_host_client.Attestation.Post.{post_attestation_record}
use shinzo_host_client.Snapshot.Import.{
  Error, SignatureData, ImportResult, import_with_verification,
}
use shinzo_host_client.Snapshot.Import.Verified.{IsVerified, import_with_verification-IsVerified}
use shinzo_host_client.Snapshot.Bootstrap.{Info}
use shinzo_host_client.Snapshot.Seeding.{
  Seeding, snapshot_record, attested, create_snapshot_attestation, then_attest, downloaded,
  signed_import, import_single_snapshot, count_import, import_each, import_snapshots,
}

module _ {Key Database : Type 0} (seeding : Seeding Key Database) where
  open seeding use {services, store, text, download_snapshot}

  -- The record that is posted for a snapshot's signature.
  pub record IsSnapshotRecord (sig : SignatureData) (r : Record) : Type 0 where
    pub attested_doc_id :
        r.attested_doc_id
        ≡ wrap "snapshot:" (wrap (show_int sig.start_block) (wrap "-" (show_int sig.end_block)))
    pub source_doc_ids : r.source_doc_ids ≡ sig.signature_identity ∷ []
    pub cids : r.cids ≡ map text sig.block_sig_merkle_roots
    pub vote_count : r.vote_count ≡ 1

  -- A database and what the attestation of a snapshot leaves of it: a record is posted once, if the
  -- signature lists roots.
  pub data Attested (sig : SignatureData) (db : Database) : Database → Type 0 where
    rootless : sig.block_sig_merkle_roots ≡ [] → Attested sig db db
    posted :
        (r : Record)
        → sig.block_sig_merkle_roots ≢ []
        → IsSnapshotRecord sig r
        → Attested sig db (post_attestation_record store r db).1

  -- A snapshot that changes nothing: it has no signature, cannot be downloaded, or its import fails and
  -- leaves the database.
  pub data Refused (snap : Info) (db : Database) : Type 0 where
    unsigned : snap.signature ≡ none → Refused snap db
    missing :
        (sig : SignatureData) (e : String)
        → snap.signature ≡ some sig
        → download_snapshot snap.filename ≡ err e
        → Refused snap db
    failing :
        (sig : SignatureData) (file : Bytes) (e : Error)
        → snap.signature ≡ some sig
        → download_snapshot snap.filename ≡ ok file
        → import_with_verification services (some file) sig db ≡ (err e, db)
        → Refused snap db

  -- The import of a downloaded file that verifies under the snapshot's signature.
  pub record Verifies (snap : Info) (sig : SignatureData) (db : Database)
      (out : Result Error ImportResult × Database) : Type 0 where
    pub file : Bytes
    pub signature : snap.signature ≡ some sig
    pub download : download_snapshot snap.filename ≡ ok file
    pub verified : IsVerified services (some file) sig db out

  -- The databases before each of the snapshots and behind the last, and how many are imported: a
  -- snapshot is refused, or it verifies and its import breaks off, or it is imported and attested.
  pub data Seeded : List Info → ℕ → Database → ℕ × Database → Type 0 where
    over : {n : ℕ} {db : Database} → Seeded [] n db (n, db)
    refused :
        {snap : Info} {needed : List Info} {n : ℕ} {db : Database} {out : ℕ × Database}
        → Refused snap db
        → Seeded needed n db out
        → Seeded (snap ∷ needed) n db out
    broken :
        {snap : Info} {needed : List Info} {n : ℕ} {db after : Database} {out : ℕ × Database}
        (sig : SignatureData) (e : Error)
        → Verifies snap sig db (err e, after)
        → Seeded needed n after out
        → Seeded (snap ∷ needed) n db out
    imported :
        {snap : Info} {needed : List Info} {n : ℕ} {db between after : Database}
        {out : ℕ × Database} (sig : SignatureData) (result : ImportResult)
        → Verifies snap sig db (ok result, between)
        → Attested sig between after
        → Seeded needed (n + 1) after out
        → Seeded (snap ∷ needed) n db out

  create_snapshot_attestation-Attested :
      (sig : SignatureData) (db : Database)
      → Attested sig db (create_snapshot_attestation seeding sig db)
  unfolding create_snapshot_attestation attested snapshot_record
  create_snapshot_attestation-Attested sig db = go sig.block_sig_merkle_roots refl
    where
      go :
          (roots : List Bytes)
          → sig.block_sig_merkle_roots ≡ roots
          → Attested sig db (attested seeding roots sig db)
      go [] e = rootless e
      go (root ∷ roots) e =
          posted (snapshot_record text sig) (λ none_listed. absurd (ground (arith, e, none_listed)))
            (record {
              attested_doc_id = refl;
              source_doc_ids = refl;
              cids = refl;
              vote_count = refl;
            })

  -- One snapshot, in front of what the others do.
  module _ (snap : Info) (needed : List Info) (n : ℕ) (db : Database)
      (later : (n : ℕ) (db : Database)
        → Seeded needed n db (import_each seeding needed (n, db))) where
    then_attest-Seeded :
        (sig : SignatureData) (file : Bytes) (out : Result Error ImportResult × Database)
        → snap.signature ≡ some sig
        → download_snapshot snap.filename ≡ ok file
        → import_with_verification services (some file) sig db ≡ out
        → ((e : Error) × (out ≡ (err e, db))) ⊎ IsVerified services (some file) sig db out
        → Seeded
            (snap ∷ needed)
            n
            db
            (import_each seeding needed (count_import seeding (then_attest seeding sig out) n))
    unfolding then_attest count_import
    then_attest-Seeded sig file (err e, after) signs loads runs (inl (e', fails)) =
        rw (ap (λ x. x.1) fails)
          (refused (failing sig file e' signs loads (runs ∙ fails)) (later n db))
    then_attest-Seeded sig file (err e, after) signs loads runs (inr verified) =
        broken sig e
          (record { file = file; signature = signs; download = loads; verified = verified })
          (later n after)
    then_attest-Seeded sig file (ok result, between) signs loads runs (inl (e, fails)) =
        absurd (ground (arith, ap (λ x. x.0) fails))
    then_attest-Seeded sig file (ok result, between) signs loads runs (inr verified) =
        imported sig result
          (record { file = file; signature = signs; download = loads; verified = verified })
          (create_snapshot_attestation-Attested sig between)
          (later (n + 1) (create_snapshot_attestation seeding sig between))

    downloaded-Seeded :
        (sig : SignatureData) (file : Result String Bytes)
        → snap.signature ≡ some sig
        → download_snapshot snap.filename ≡ file
        → Seeded
            (snap ∷ needed)
            n
            db
            (import_each seeding needed (count_import seeding (downloaded seeding sig file db) n))
    unfolding downloaded count_import
    downloaded-Seeded sig (err e) signs fails = refused (missing sig e signs fails) (later n db)
    downloaded-Seeded sig (ok file) signs loads =
        then_attest-Seeded sig file (import_with_verification services (some file) sig db) signs
          loads refl (import_with_verification-IsVerified services (some file) sig db)

    signed_import-Seeded :
        (signature : Option SignatureData)
        → snap.signature ≡ signature
        → Seeded (snap ∷ needed) n db (
            import_each seeding needed
              (count_import seeding (signed_import seeding snap.filename signature db) n))
    unfolding signed_import count_import
    signed_import-Seeded none e = refused (unsigned e) (later n db)
    signed_import-Seeded (some sig) e =
        downloaded-Seeded sig (download_snapshot snap.filename) e refl

  import_each-Seeded :
      (needed : List Info) (n : ℕ) (db : Database)
      → Seeded needed n db (import_each seeding needed (n, db))
  unfolding import_each import_single_snapshot
  import_each-Seeded [] n db = over
  import_each-Seeded (snap ∷ needed) n db =
      signed_import-Seeded snap needed n db (import_each-Seeded needed) snap.signature refl

  -- The import of snapshots takes them in turn. One without a signature, one that cannot be downloaded,
  -- and one whose import fails without a change leave the database as it is. One whose file verifies
  -- and whose import then breaks off leaves what that import leaves, and nothing is attested. Any other
  -- one has verified and is imported and counted, and its record, with its range, signer and roots, is
  -- posted once behind the import, if the signature lists roots.
  pub import_snapshots-Seeded :
      (needed : List Info) (db : Database) → Seeded needed 0 db (import_snapshots seeding needed db)
  unfolding import_snapshots
  import_snapshots-Seeded needed db = import_each-Seeded needed 0 db
