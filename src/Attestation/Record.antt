-- ===== src/Attestation/Record.antt =====
-- pkg/attestation/attestationRecordService.go: attestation records made, merged and posted. The
-- signature check (`SignatureVerifier`) and the database's answers are arguments.
pub mod Merging
pub mod Batch
use shinzo_host_client.Prelude.{
  ℕ, String, Bool, true, false, not, Option, none, some, List, [], ◌∷◌, ◌++◌, ◌==◌, string_eq,
  if◌then◌else◌, length, Map, lookup, insert, contains,
}

pub record Version (Signature : Type 0) : Type 0 where
  pub cid : String
  pub signature : Signature
  pub collection_version_id : String

pub record Record : Type 0 where
  pub attested_doc_id : String
  pub source_doc_ids : List String
  pub cids : List String
  pub doc_type : String
  pub vote_count : ℕ

-- The versions whose signatures verify, in the order in which their goroutines deliver them.
unfoldable pub verified_cids :
    {Signature : Type 0} → (String → Signature → Bool) → List (Version Signature) → List String
verified_cids verify [] = []
verified_cids verify (v ∷ versions) =
    let rest = verified_cids verify versions in
    if verify v.cid v.signature then v.cid ∷ rest else rest

-- `versions` stands in the order in which the checks finish.
unfoldable pub create_attestation_record :
    {Signature : Type 0}
    → (String → Signature → Bool)
    → String
    → List String
    → String
    → List (Version Signature)
    → Record
unfolding verified_cids
create_attestation_record verify doc_id source_doc_ids doc_type versions = record {
  attested_doc_id = doc_id;
  source_doc_ids = source_doc_ids;
  cids = verified_cids verify versions;
  doc_type = doc_type;
  vote_count = 1;
}

-- The loop that appends the values not seen so far; the set of those seen is the list itself.
unfoldable pub append_new : List String → List String → List String
append_new result [] = result
append_new result (s ∷ values) =
    append_new (if contains result s then result else result ++ (s ∷ [])) values

-- The value of a stored list field: the types that the code reads, `none` for an option without a
-- value or an item that is not a string, and anything else.
pub data ListField : Type 0 where
  missing other : ListField
  options anys : List (Option String) → ListField
  strings : List String → ListField

values_of : List (Option String) → List String
values_of [] = []
values_of (none ∷ items) = values_of items
values_of (some s ∷ items) = s ∷ values_of items

unfoldable pub existing_values : ListField → List String
unfolding values_of
existing_values missing = []
existing_values other = []
existing_values (options items) = values_of items
existing_values (anys items) = values_of items
existing_values (strings items) = items

unfoldable pub merge_string_list_field : ListField → List String → List String
unfolding append_new existing_values
merge_string_list_field field new_values =
    append_new (append_new [] (existing_values field)) new_values

-- A stored attestation document.
pub record Stored : Type 0 where
  pub source_doc : ListField
  pub cids : ListField
  pub doc_type : String
  pub vote_count : ℕ

map_some : List String → List (Option String)
map_some [] = []
map_some (s ∷ items) = some s ∷ map_some items

-- The three fields set on an existing document.
unfoldable pub merge_into : Stored → Record → Stored
unfolding merge_string_list_field map_some
merge_into doc r = record doc {
  source_doc = anys (map_some (merge_string_list_field doc.source_doc r.source_doc_ids));
  cids = anys (map_some (merge_string_list_field doc.cids r.cids));
  vote_count = r.vote_count;
}

-- `MergeAttestationRecords`: `none` for records of different documents.
unfoldable pub merge_attestation_records : Record → Record → Option Record
unfolding append_new
merge_attestation_records r1 r2 =
    if not (r1.attested_doc_id == r2.attested_doc_id)
    then none
    else some (record {
      attested_doc_id = r1.attested_doc_id;
      source_doc_ids = append_new (append_new [] r1.source_doc_ids) r2.source_doc_ids;
      cids = append_new (append_new [] r1.cids) r2.cids;
      doc_type = "";
      vote_count = 0;
    })

-- A document handed to the database: the stored one of this attested document, or a new one.
pub data Slot : Type 0 where
  updated : String → Slot
  created : Record → Slot

unfoldable pub is_empty : List String → Bool
is_empty [] = true
is_empty (c ∷ cids) = false

-- One record of the second loop: the documents found are shared, so that a later record for the
-- same document merges into what an earlier one has set. `none` is a nil record.
slot : String → Option Stored → Map String Stored → Record → Map String Stored × Slot
unfolding merge_into
slot key none existing r = (existing, created r)
slot key (some doc) existing r = (insert key (merge_into doc r) existing, updated key)

post_one : Record → Map String Stored × List Slot → Map String Stored × List Slot
unfolding slot is_empty
post_one r (existing, docs) =
    if is_empty r.cids
    then (existing, docs)
    else (let (existing', s) =
          slot r.attested_doc_id (lookup r.attested_doc_id existing) existing r in
        (existing', docs ++ (s ∷ [])))

-- `PostAttestationRecordsBatch` after the lookups: the found documents as they are saved, and the
-- documents in the order in which they are handed to `SaveManyDocuments`.
unfoldable pub post_all :
    List (Option Record) → Map String Stored × List Slot → Map String Stored × List Slot
unfolding post_one
post_all [] acc = acc
post_all (none ∷ records) acc = post_all records acc
post_all (some r ∷ records) acc = post_all records (post_one r acc)

-- The lookups of the first loop; one that fails or finds nothing leaves the map as it is.
look_up : (String → Option Stored) → Record → Map String Stored → Map String Stored
unfolding is_empty
look_up find r found = if is_empty r.cids then found else add (find r.attested_doc_id)
  where
    add : Option Stored → Map String Stored
    add none = found
    add (some doc) = insert r.attested_doc_id doc found

look_up_all :
    (String → Option Stored) → List (Option Record) → Map String Stored → Map String Stored
unfolding look_up
look_up_all find [] found = found
look_up_all find (none ∷ records) found = look_up_all find records found
look_up_all find (some r ∷ records) found = look_up_all find records (look_up find r found)

unfoldable pub post_attestation_records_batch :
    (String → Option Stored) → List (Option Record) → Map String Stored × List Slot
unfolding post_all look_up_all
post_attestation_records_batch find records = post_all records (look_up_all find records [], [])

-- The inputs of the batch handler: records without a verified version are left out.
pub record Input (Signature : Type 0) : Type 0 where
  pub doc_id : String
  pub doc_type : String
  pub versions : List (Version Signature)

unfoldable pub records_of :
    {Signature : Type 0}
    → (String → Signature → Bool)
    → List (Input Signature)
    → List (Option Record)
unfolding create_attestation_record is_empty
records_of verify [] = []
records_of verify (i ∷ inputs) =
    let r = create_attestation_record verify i.doc_id (i.doc_id ∷ []) i.doc_type i.versions in
    let rest = records_of verify inputs in if is_empty r.cids then rest else some r ∷ rest

unfoldable pub handle_document_attestation_batch :
    {Signature : Type 0}
    → (String → Signature → Bool)
    → (String → Option Stored)
    → List (Input Signature)
    → Map String Stored × List Slot
unfolding records_of post_attestation_records_batch
handle_document_attestation_batch verify find inputs =
    post_attestation_records_batch find (records_of verify inputs)
