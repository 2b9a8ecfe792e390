-- ===== src/Attestation/Documents.antt =====
-- pkg/attestation: the versions that a document holds, the check of their signatures
-- (signatureVerifier.go) and the documents' attestations (attestationRecordService.go).
pub mod Posted
pub mod Saved
use shinzo_host_client.Prelude.{
  ℕ, String, Bool, true, false, not, ◌&&◌, ◌||◌, Option, none, some, List, [], ◌∷◌, ◌==◌, string_eq,
  if◌then◌else◌, Map,
}
use shinzo_host_client.Prelude.Results.{Result, ok, err, ◌>>=◌}
use shinzo_host_client.Prelude.Text.{wrap}
use shinzo_host_client.Attestation.Record.{
  Record, Version, Stored, Input, Slot, create_attestation_record, records_of, is_empty, updated,
  created, post_attestation_records_batch,
}
use shinzo_host_client.Attestation.Post.{
  Store, unless_error, wrapped, lookup_existing_attestation, post_attestation_record,
}
use shinzo_host_client.Host.Metrics.{
  HostMetrics, counted, increment_signature_verifications, increment_signature_failures,
}

pub record Signature : Type 0 where
  pub type_ : String
  pub identity : String
  pub value : String

-- A map of a document's data: the fields that are read, `none` where they are missing or of another
-- type.
pub record SignatureMap : Type 0 where
  pub type_ : Option String
  pub identity : Option String
  pub value : Option String

pub record VersionMap : Type 0 where
  pub cid : Option String
  pub signature : Option SignatureMap
  pub collection_version_id : Option String

string_of : Option String → String
string_of none = ""
string_of (some s) = s

signature_of : Option SignatureMap → Signature
unfolding string_of
signature_of none = record { type_ = ""; identity = ""; value = "" }
signature_of (some s) = record {
  type_ = string_of s.type_;
  identity = string_of s.identity;
  value = string_of s.value;
}

versions_of : List (Option VersionMap) → List (Version Signature)
unfolding string_of signature_of
versions_of [] = []
versions_of (none ∷ items) = versions_of items
versions_of (some v ∷ items) =
    record {
      cid = string_of v.cid;
      signature = signature_of v.signature;
      collection_version_id = string_of v.collection_version_id;
    }
    ∷ versions_of items

-- The field `_version`: `none` where it is missing or no list; an item that is no map is `none`.
unfoldable pub extract_versions_from_document :
    Option (List (Option VersionMap)) → List (Version Signature)
unfolding versions_of
extract_versions_from_document none = []
extract_versions_from_document (some items) = versions_of items

pub data VerifierError : Type 0 where
  empty_identity_or_cid invalid_signature_type defra_db_unavailable parse_public_key : VerifierError
  signature_verification_failed : VerifierError

-- What the check asks of the libraries: folding of case, keys, and the database, if there is one.
pub record VerifierServices (Key : Type 0) : Type 0 where
  pub fold : String → String
  pub public_key_from_string : String → Option Key
  pub db_verify_signature : Option (String → Key → Bool)

module _ {Key : Type 0} (services : VerifierServices Key) where
  open services use {fold, public_key_from_string, db_verify_signature}

  answer : Bool → Option HostMetrics → Result VerifierError Unit × Option HostMetrics
  unfolding increment_signature_verifications increment_signature_failures
  answer true metrics = (ok tt, counted increment_signature_verifications metrics)
  answer false metrics =
      (err signature_verification_failed, counted increment_signature_failures metrics)

  with_key :
      (String → Key → Bool)
      → String
      → Option Key
      → Option HostMetrics
      → Result VerifierError Unit × Option HostMetrics
  unfolding answer
  with_key check cid none metrics = (err parse_public_key, metrics)
  with_key check cid (some key) metrics = answer (check cid key) metrics

  with_database :
      Option (String → Key → Bool)
      → String
      → Signature
      → Option HostMetrics
      → Result VerifierError Unit × Option HostMetrics
  unfolding with_key
  with_database none cid signature metrics = (err defra_db_unavailable, metrics)
  with_database (some check) cid signature metrics =
      with_key check cid (public_key_from_string signature.identity) metrics

  -- `DefraSignatureVerifier.Verify`
  unfoldable pub verify :
      String → Signature → Option HostMetrics → Result VerifierError Unit × Option HostMetrics
  unfolding with_database
  verify cid signature metrics =
      if signature.identity == "" || cid == ""
      then (err empty_identity_or_cid, metrics)
      else if not (fold signature.type_ == fold "ES256K")
      then (err invalid_signature_type, metrics)
      else with_database db_verify_signature cid signature metrics

unfoldable pub no_versions : List (Version Signature) → Bool
no_versions [] = true
no_versions (v ∷ versions) = false

-- The errors of the second loop of `PostAttestationRecordsBatch`, at the first document that has one.
module _ {Database : Type 0} (store : Store Database) where
  open store use {collection_error, set_error, new_doc_error, save_many_documents}

  slot_error : Slot → Result String Unit
  unfolding unless_error
  slot_error (updated key) = do
    _ ← unless_error "failed to set source_doc on existing doc: " (set_error "source_doc")
    _ ← unless_error "failed to set CIDs on existing doc: " (set_error "CIDs")
    unless_error "failed to set vote_count on existing doc: " (set_error "vote_count")
  slot_error (created r) =
      unless_error (wrap "failed to create document for attestation " (wrap r.attested_doc_id ": "))
        (new_doc_error r)

  slots_error : List Slot → Result String Unit
  unfolding slot_error
  slots_error [] = ok tt
  slots_error (s ∷ slots) = do _ ← slot_error s; slots_error slots

  -- A lookup that fails finds nothing.
  or_nothing : Result String (Option Stored) → Option Stored
  or_nothing (ok doc) = doc
  or_nothing (err e) = none

  save_slots : Map String Stored × List Slot → Database → Option String × Database
  unfolding slots_error
  save_slots (existing, slots) db = at (slots_error slots)
    where
      at : Result String Unit → Option String × Database
      at (err e) = (some e, db)
      at (ok _) = save_many_documents (existing, slots) db

  all_left_out : List (Option Record) → Bool
  all_left_out [] = true
  all_left_out (none ∷ records) = all_left_out records
  all_left_out (some r ∷ records) = is_empty r.cids && all_left_out records

  unfoldable pub post_batch : List (Option Record) → Database → Option String × Database
  unfolding unless_error save_slots all_left_out post_attestation_records_batch
      lookup_existing_attestation or_nothing
  post_batch [] db = (none, db)
  post_batch (r ∷ records) db =
      at (unless_error "failed to get attestation collection: " (collection_error db))
    where
      at : Result String Unit → Option String × Database
      at (err e) = (some e, db)
      at (ok _) =
          if all_left_out (r ∷ records)
          then (none, db)
          else save_slots
              (post_attestation_records_batch
                (λ key. or_nothing (lookup_existing_attestation store key db)) (r ∷ records))
              db

  module _ (checks : String → Signature → Bool) where
    with_record : Record → Database → Option String × Database
    unfolding post_attestation_record
    with_record r db =
        if is_empty r.cids then (none, db) else posted (post_attestation_record store r db)
      where
        posted : Option String × Database → Option String × Database
        posted (none, after) = (none, after)
        posted (some e, after) = (
          some (
              wrap "failed to post attestation record for document "
                (wrap r.attested_doc_id (wrap ": " e))),
          after,
        )

    unfoldable pub handle_document_attestation :
        String → String → List (Version Signature) → Database → Option String × Database
    unfolding no_versions with_record create_attestation_record
    handle_document_attestation doc_id doc_type versions db =
        if no_versions versions
        then (none, db)
        else with_record (create_attestation_record checks doc_id (doc_id ∷ []) doc_type versions)
            db

    -- `HandleDocumentAttestationBatch`, errors included.
    unfoldable pub handle_batch : List (Input Signature) → Database → Option String × Database
    unfolding post_batch records_of
    handle_batch inputs db = post_batch (records_of checks inputs) db
