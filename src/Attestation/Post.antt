-- ===== src/Attestation/Post.antt =====
-- pkg/attestation/attestationRecordService.go: one attestation record is merged into the stored one
-- and saved. The database answers through `Store`; an error is its text.
use shinzo_host_client.Prelude.{
  String, Option, none, some, List, [], ◌∷◌, ◌==◌, Map, string_eq, if◌then◌else◌,
}
use shinzo_host_client.Prelude.Results.{Result, ok, err, ◌>>=◌}
use shinzo_host_client.Prelude.Text.{wrap}
use shinzo_host_client.Attestation.Record.{Record, Slot, Stored, merge_into}

-- What a query yields under the collection's name: a list of anything, where `none` is an item that
-- is no document, or a list of documents; a document has a `_docID` that is a string, or not.
pub data Listing : Type 0 where
  unexpected : Listing
  anys : List (Option (Option String)) → Listing
  documents : List (Option String) → Listing

pub data QueryData : Type 0 where
  not_a_map : QueryData
  listing : Listing → QueryData

string_or_empty : Option String → String
string_or_empty none = ""
string_or_empty (some s) = s

unfoldable pub extract_doc_id_from_result : QueryData → String
unfolding string_or_empty
extract_doc_id_from_result not_a_map = ""
extract_doc_id_from_result (listing unexpected) = ""
extract_doc_id_from_result (listing (anys [])) = ""
extract_doc_id_from_result (listing (anys (none ∷ items))) = ""
extract_doc_id_from_result (listing (anys (some id ∷ items))) = string_or_empty id
extract_doc_id_from_result (listing (documents [])) = ""
extract_doc_id_from_result (listing (documents (id ∷ items))) = string_or_empty id

-- A document as it is handed to `SaveDocument`.
pub data Document : Type 0 where
  existing : Stored → Document
  fresh : Record → Document

pub record Store (Database : Type 0) : Type 0 where
  -- An error of `GetCollectionByName`, of a field's `Set`, of `NewDocFromMap`.
  pub collection_error : Database → Option String
  pub set_error : String → Option String
  pub new_doc_error : Record → Option String
  pub exec_request : String → Database → QueryData
  pub new_doc_id : String → Result String String
  pub get_document : String → Database → Result String Stored
  pub save_document : Document → Database → Option String × Database
  pub save_many_documents : Map String Stored × List Slot → Database → Option String × Database

-- An error behind a prefix, or nothing.
unfoldable pub unless_error : String → Option String → Result String Unit
unless_error prefix none = ok tt
unless_error prefix (some e) = err (wrap prefix e)

unfoldable pub wrapped : {A : Type 0} → String → Result String A → Result String A
wrapped prefix (ok a) = ok a
wrapped prefix (err e) = err (wrap prefix e)

module _ {Database : Type 0} (store : Store Database) where
  open store use {
    collection_error, set_error, new_doc_error, exec_request, new_doc_id, get_document,
    save_document,
  }

  fetched : String → Database → Result String (Option Stored)
  fetched doc_id_str db = do
    doc_id ← new_doc_id doc_id_str
    doc ← get_document doc_id db
    ok (some doc)

  -- `none` is nil, no such document.
  unfoldable pub lookup_existing_attestation : String → Database → Result String (Option Stored)
  unfolding extract_doc_id_from_result fetched
  lookup_existing_attestation attested_doc_id db =
      let doc_id_str = extract_doc_id_from_result (exec_request attested_doc_id db) in
      if doc_id_str == "" then ok none else fetched doc_id_str db

  -- The document to save.
  unfoldable pub document_for : Record → Option Stored → Result String Document
  unfolding merge_into unless_error
  document_for r (some doc) = do
    _ ← unless_error "failed to set source_doc: " (set_error "source_doc")
    _ ← unless_error "failed to set CIDs: " (set_error "CIDs")
    _ ← unless_error "failed to set vote_count: " (set_error "vote_count")
    ok (existing (merge_into doc r))
  document_for r none = do
    _ ← unless_error "failed to create attestation document: " (new_doc_error r)
    ok (fresh r)

  -- All that comes before the save.
  unfoldable pub prepared : Record → Database → Result String Document
  unfolding unless_error wrapped lookup_existing_attestation document_for
  prepared r db = do
    _ ← unless_error "failed to get attestation collection: " (collection_error db)
    doc ←
        wrapped "failed to lookup existing attestation: "
          (lookup_existing_attestation r.attested_doc_id db)
    document_for r doc

  saved : Result String Document → Database → Option String × Database
  saved (ok doc) db = save_document doc db
  saved (err e) db = (some e, db)

  -- `none` is nil, the record is posted.
  unfoldable pub post_attestation_record : Record → Database → Option String × Database
  unfolding prepared saved
  post_attestation_record r db = saved (prepared r db) db
