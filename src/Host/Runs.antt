-- ===== src/Host/Runs.antt =====
-- Runs of the host's handlers at concrete data.
use shinzo_host_client.Prelude.{
  ℕ, suc, ◌-◌, ◌≡◌, ◌⊎◌, refl, String, Bool, true, false, Option, none, some, List, [], ◌∷◌, ◌==◌,
  nat_eq, string_eq, if◌then◌else◌, contains, lookup, All, Any, inl, inr, ==_iff, Bool-cases, arith,
}
use shinzo_host_client.Prelude.Int.{pos, int_eq}
use shinzo_host_client.Prelude.Results.{Result, ok, err}
use shinzo_host_client.Prelude.Text.{contains_text}
use shinzo_host_client.Attestation.Record.{Record, strings, Input}
use shinzo_host_client.Attestation.Blocks.{BlockSignature}
use shinzo_host_client.Attestation.Post.{
  Store, not_a_map, post_attestation_record, lookup_existing_attestation,
  extract_doc_id_from_result, document_for,
}
use shinzo_host_client.Attestation.Attested.{is_document_attested_via_block}
use shinzo_host_client.Attestation.Documents.{Signature}
use shinzo_host_client.Host.Metrics.{HostMetrics}
use shinzo_host_client.Host.Attesters.{snapshot}
use shinzo_host_client.Host.Attesters.Recent.{
  Event, observed, IsOrdered, after, seen_since, snapshot-seen_since,
}
use shinzo_host_client.Host.Attesters.Recent
use shinzo_host_client.Host.Extract.{Value}
use shinzo_host_client.Host.Signature.{
  Host, Services, is_transaction_conflict, max_attestation_retries, is_empty, block_record,
  signature_passes, process_attestations_from_block_signature, process_block_signature_document,
}
use shinzo_host_client.Host.Signature.Trusted.{
  IsUnchanged, IsAccepted, process_block_signature_document-IsTrusted,
}
use shinzo_host_client.Host.Signature.Retries.{
  calm, clash, process_attestations_from_block_signature-succeeds,
}
use shinzo_host_client.Host.Signature.Undecodable.{with_cid, signature_passes-undecodable}
use shinzo_host_client.Host.Signature.Unfound.{is_document_attested_via_block-never}
use shinzo_host_client.Host.Pipeline.{Document, Counters, Context}

abbrev a_history : List Event
a_history = observed "a" 9 ∷ Recent.taken 8 ∷ observed "b" 2 ∷ []

snapshot-seen_since_example :
    contains (snapshot (λ l. l) 10 (after (λ l. l) 5 a_history)).0 "a"
    ≡ seen_since (10 - 5) "a" a_history
snapshot-seen_since_example =
    snapshot-seen_since (λ l. l) 5 10 a_history "a" (λ l s. refl) (omega arith)
      (λ e. absurd (ground (arith, (==_iff {K = String} "a" "").1 e)))

-- A database counts the saves, and refuses the first.
abbrev a_save : ℕ → Option String × ℕ
a_save db = if db == 0 then (some "transaction conflict. Please retry", 1) else (none, suc db)

abbrev a_store : Store ℕ
a_store = record {
  collection_error = λ db. none;
  set_error = λ s. none;
  new_doc_error = λ r. none;
  exec_request = λ s db. not_a_map;
  new_doc_id = λ s. ok s;
  get_document = λ s db. err "no document";
  save_document = λ d db. a_save db;
  save_many_documents = λ d db. a_save db;
}

abbrev a_services : Services String Unit ℕ
a_services = record {
  crypto = record {
    hex_bytes = λ s. some [];
    public_key_from_string = λ t s. some tt;
    verify = λ k root value. some true;
  };
  decode_cid = λ s. if s == "bad" then none else some s;
  merkle_root = λ cids. some [];
  store = a_store;
}

abbrev a_signature : BlockSignature
a_signature = record {
  block_number = pos 7;
  block_hash = "";
  merkle_root = "aa";
  cid_count = pos 1;
  cids = "good" ∷ [];
  signature_type = "ES256K";
  signature_identity = "indexer";
  signature_value = "";
  created_at = "";
}

abbrev a_host : Host ℕ
a_host = record {
  database = some 0;
  verifier = some (record { signatures = []; max_size = 10 });
  attesters = some (record { window = 5; last_seen = [] });
  metrics = none;
  attested_blocks = [];
}

abbrev a_document : String → Option (Value Unit)
a_document name =
    if name == "blockNumber"
    then some (Value.int (pos 7))
    else if name == "merkleRoot"
    then some (Value.text "aa")
    else if name == "signatureType"
    then some (Value.text "ES256K")
    else if name == "signatureIdentity"
    then some (Value.text "indexer")
    else if name == "cids"
    then some (Value.list (strings ("good" ∷ [])))
    else none

process_block_signature_document-IsTrusted_example :
    IsUnchanged a_services a_host
      (process_block_signature_document a_services (λ f. pos 0) a_document 3 0 a_host)
    ⊎ IsAccepted a_services
        (λ f. pos 0)
        a_document
        3
        a_host
        (process_block_signature_document a_services (λ f. pos 0) a_document 3 0 a_host)
process_block_signature_document-IsTrusted_example =
    process_block_signature_document-IsTrusted a_services (λ f. pos 0) a_document 3 0 a_host

first_post :
    (r : Record)
    → post_attestation_record a_store r 0 ≡ (some "transaction conflict. Please retry", 1)
unfolding post_attestation_record lookup_existing_attestation extract_doc_id_from_result
    document_for
first_post r = refl

second_post : (r : Record) → post_attestation_record a_store r 1 ≡ (none, 2)
unfolding post_attestation_record lookup_existing_attestation extract_doc_id_from_result
    document_for
second_post r = refl

is_conflict : is_transaction_conflict "transaction conflict. Please retry" ≡ true
unfolding is_transaction_conflict contains_text
is_conflict = refl

process_attestations_from_block_signature-succeeds_example :
    ((process_attestations_from_block_signature a_services a_signature a_host).database ≡ some 2)
    × ((b : Bool) × (lookup
            (pos 7)
            (process_attestations_from_block_signature a_services a_signature
              a_host).attested_blocks
          ≡ some b))
unfolding is_empty max_attestation_retries
process_attestations_from_block_signature-succeeds_example =
    process_attestations_from_block_signature-succeeds a_services a_signature a_host 1 0 1 2 refl
      refl
      (clash "transaction conflict. Please retry" (first_post (block_record a_signature))
        is_conflict calm)
      (second_post (block_record a_signature)) (omega arith)

signature_passes-undecodable_example :
    signature_passes a_services (with_cid a_signature "bad")
    ≡ signature_passes a_services a_signature
unfolding is_empty
signature_passes-undecodable_example =
    signature_passes-undecodable a_services a_signature "bad" refl refl

-- A database with one record, which it yields where it is asked for.
abbrev a_query : String → String → Result String (List Record)
a_query d t =
    ok (
      if (block_record a_signature).attested_doc_id == d then block_record a_signature ∷ [] else [])

a_query-Any :
    (d t : String)
    → (records : List Record) × (a_query d t ≡ ok records)
      × All
          (λ r. (r.attested_doc_id ≡ d) × Any (λ sig. r ≡ block_record sig) (a_signature ∷ []))
          records
a_query-Any d t = elim (Bool-cases ((block_record a_signature).attested_doc_id == d)) [
  | inl same ↦ (
    block_record a_signature ∷ [],
    rw same refl,
    (((==_iff (block_record a_signature).attested_doc_id d).0 same, inl refl), tt),
  )
  | inr other ↦ ([], rw other refl, tt)
]

is_document_attested_via_block-never_example :
    is_document_attested_via_block a_query (pos 7) "good" ≡ ok false
is_document_attested_via_block-never_example =
    is_document_attested_via_block-never a_query (a_signature ∷ []) (pos 7) "good" a_query-Any

abbrev an_input : Input Signature
an_input = record {
  doc_id = "d";
  doc_type = "Log";
  versions =
      record {
        cid = "good";
        signature = record { type_ = "ES256K"; identity = ""; value = "" };
        collection_version_id = "";
      }
      ∷ [];
}

abbrev a_context : Context
a_context = record { done_after = λ n. false; done_waiting = λ n. false }

abbrev some_counters : HostMetrics → Counters
some_counters m = record {
  processed_count = pos 1;
  pending_attestations_count = pos 1;
  metrics = some m;
}

abbrev some_docs : List Document
some_docs = record { id = "d"; type_ = "Log"; block_number = 1; doc_fields = none } ∷ []
