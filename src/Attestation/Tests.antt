-- ===== src/Attestation/Tests.antt =====
-- Examples for pkg/attestation: two records of one stored document, and a cache of one block.
use shinzo_host_client.Prelude.{
  ℕ, ◌+◌, ◌≡◌, ◌==◌, if◌then◌else◌, insert, refl, String, Option, none, some, List, [], ◌∷◌,
  string_eq, lookup, contains, arith,
}
use shinzo_host_client.Prelude.Int.{pos, int_eq}
use shinzo_host_client.Prelude.Results.{ok}
use shinzo_host_client.Attestation.Record.{
  Record, Stored, strings, anys, updated, created, post_attestation_records_batch,
}
use shinzo_host_client.Attestation.Post.{
  Store, not_a_map, listing, documents, lookup_existing_attestation,
}
use shinzo_host_client.Attestation.Documents.Saved.{stored_for}
use shinzo_host_client.Attestation.Blocks.{BlockSignature, BlockSignatureCache}
use shinzo_host_client.Attestation.Blocks.Cache.{IsValid}

abbrev a_record : String → List String → Record
a_record doc_id cids = record {
  attested_doc_id = doc_id;
  source_doc_ids = "s" ∷ [];
  cids = cids;
  doc_type = "Block";
  vote_count = 1;
}

abbrev a_stored : Stored
a_stored = record {
  source_doc = strings [];
  cids = strings ("a" ∷ []);
  doc_type = "Block";
  vote_count = 1;
}

-- The database has a document for "d" and counts the saves.
abbrev a_store : Store ℕ
a_store = record {
  collection_error = λ db. none;
  set_error = λ field. none;
  new_doc_error = λ r. none;
  exec_request = λ id db. if id == "d" then listing (documents (some "1" ∷ [])) else not_a_map;
  new_doc_id = λ s. ok s;
  get_document = λ id db. ok a_stored;
  save_document = λ doc db. (none, db);
  save_many_documents = λ docs db. (none, db + 1);
}

abbrev a_batch : List (Option Record)
a_batch =
    some (a_record "d" ("b" ∷ []))
    ∷ none
    ∷ some (a_record "e" ("x" ∷ []))
    ∷ some (a_record "d" ("c" ∷ []))
    ∷ []

-- The stored document is handed over for both of its records, with their CIDs.
hands_batch : post_attestation_records_batch (λ key. stored_for a_store key 0) a_batch ≡ (
  (
    "d",
    record a_stored {
      source_doc = anys (some "s" ∷ []);
      cids = anys (some "a" ∷ some "b" ∷ some "c" ∷ []);
    },
  )
      ∷ [],
  updated "d" ∷ created (a_record "e" ("x" ∷ [])) ∷ updated "d" ∷ [],
)
unfolding post_attestation_records_batch stored_for lookup_existing_attestation lookup insert
    contains
hands_batch = refl

abbrev a_signature : ℕ → BlockSignature
a_signature n = record {
  block_number = pos n;
  block_hash = "";
  merkle_root = "00";
  cid_count = pos 0;
  cids = [];
  signature_type = "ES256K";
  signature_identity = "indexer";
  signature_value = "";
  created_at = "";
}

abbrev a_cache : BlockSignatureCache
a_cache = record { signatures = (pos 4, a_signature 4) ∷ []; max_size = 1 }

a_cache-IsValid : IsValid a_cache
a_cache-IsValid = record { bounded = omega arith; blocks = (omega arith, tt) }
