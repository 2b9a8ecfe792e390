-- ===== src/Host/Signature.antt =====
-- pkg/host/attestationHandler.go: a block signature that a peer has sent is read, verified, cached and
-- attested. A host holds what the handler reads and changes; nil is `none`.
pub mod Trusted
pub mod Retries
pub mod Undecodable
pub mod Unfound
use shinzo_host_client.Prelude.{
  ℕ, zero, suc, ◌%◌, ◌^◌, String, Bool, true, false, not, ◌||◌, Option, none, some, List, [], ◌∷◌,
  ◌==◌, string_eq, if◌then◌else◌, Map, lookup, insert,
}
use shinzo_host_client.Prelude.Int.{ℤ, pos, int_eq, to_uint64}
use shinzo_host_client.Prelude.Results.{Result, ok, err, ◌>>=◌}
use shinzo_host_client.Prelude.Text.{contains_text, wrap, show_int}
use shinzo_host_client.Attestation.Record.{Record, ListField, existing_values}
use shinzo_host_client.Attestation.Blocks
use shinzo_host_client.Attestation.Blocks.{
  BlockSignature, BlockSignatureCache, add, verify_cid_list_against_merkle_root,
}
use shinzo_host_client.Attestation.Blocks.Verify.{Crypto, verify_block_signature}
use shinzo_host_client.Attestation.Post.{Store, post_attestation_record}
use shinzo_host_client.Host.Extract.{Value, ExtractError, block_signature_of}
use shinzo_host_client.Host.Attesters.{ObservedAttesters, observe}
use shinzo_host_client.Host.Metrics.{
  HostMetrics, counted, increment_attestations_created, increment_attestation_errors,
  increment_signature_verifications, increment_signature_failures, increment_document_by_type,
  update_last_processing_time, update_most_recent_block,
}

-- `isTransactionConflict` for an error that is not nil.
unfoldable pub is_transaction_conflict : String → Bool
unfolding contains_text
is_transaction_conflict e = contains_text e "transaction conflict" || contains_text e "Please retry"

-- How a retried write ends.
pub data Outcome : Type 0 where
  success fatal exhausted : Outcome

module _ {Database : Type 0} where
  answered : (Database → Outcome × Database) → Option String × Database → Outcome × Database
  unfolding is_transaction_conflict
  answered again (none, db) = (success, db)
  answered again (some e, db) =
      let next = again db in if is_transaction_conflict e then next else (fatal, db)

  -- The loop on attempts, of which this many are left.
  unfoldable pub attempt : (Database → Option String × Database) → ℕ → Database → Outcome × Database
  unfolding answered
  attempt post zero db = (exhausted, db)
  attempt post (suc left) db = answered (attempt post left) (post db)

unfoldable pub max_attestation_retries : ℕ
max_attestation_retries = 5

-- What the handler reads and changes. The verifier's state is its cache.
pub record Host (Database : Type 0) : Type 0 where
  pub database : Option Database
  pub verifier : Option BlockSignatureCache
  pub attesters : Option ObservedAttesters
  pub metrics : Option HostMetrics
  pub attested_blocks : Map ℤ Bool

unfoldable pub is_empty : List String → Bool
is_empty [] = true
is_empty (c ∷ cids) = false

unfoldable pub block_record : BlockSignature → Record
unfolding wrap show_int
block_record sig = record {
  attested_doc_id = wrap "block:" (wrap (show_int sig.block_number) (wrap ":" sig.merkle_root));
  source_doc_ids = sig.signature_identity ∷ [];
  cids = sig.cids;
  doc_type = "Block";
  vote_count = 1;
}

pub record Services (Cid Key Database : Type 0) : Type 0 where
  pub crypto : Crypto Key
  pub decode_cid : String → Option Cid
  pub merkle_root : List Cid → Option (List ℕ)
  pub store : Store Database

module _ {Cid Key Database : Type 0} (services : Services Cid Key Database) where
  open services use {crypto, decode_cid, merkle_root, store}

  -- The counters that the first attestation of a block moves.
  created_block : HostMetrics → HostMetrics
  unfolding increment_attestations_created increment_document_by_type
  created_block m =
      increment_document_by_type "Ethereum__Mainnet__Block" (increment_attestations_created m)

  -- `LoadOrStore`: what is there stays, and moves no counter.
  stored_block : ℤ → Option Bool → Host Database → Host Database
  unfolding created_block
  stored_block block_number (some _) h = h
  stored_block block_number none h = record h {
    attested_blocks = insert block_number true h.attested_blocks;
    metrics = counted created_block h.metrics;
  }

  posted_with : BlockSignature → Outcome × Database → Host Database → Host Database
  unfolding stored_block increment_attestation_errors update_most_recent_block to_uint64
  posted_with sig (success, db) h =
      let stored = stored_block sig.block_number (lookup sig.block_number h.attested_blocks) h in
      record stored {
        database = some db;
        metrics = counted (update_most_recent_block (to_uint64 sig.block_number)) stored.metrics;
      }
  posted_with sig (_, db) h = record h {
    database = some db;
    metrics = counted increment_attestation_errors h.metrics;
  }

  posted_to : BlockSignature → Option Database → Host Database → Host Database
  unfolding posted_with attempt post_attestation_record max_attestation_retries
  posted_to sig none h = h
  posted_to sig (some db) h =
      posted_with sig
        (attempt (post_attestation_record store (block_record sig)) max_attestation_retries db) h

  unfoldable pub process_attestations_from_block_signature :
      BlockSignature → Host Database → Host Database
  unfolding posted_to is_empty
  process_attestations_from_block_signature sig h =
      if is_empty sig.cids then h else posted_to sig h.database h

  -- An error of the CID check is only logged.
  cids_pass : Blocks.Result → Bool
  cids_pass (Blocks.ok match) = match
  cids_pass (Blocks.err e) = true

  is_ok : {E : Type 0} → Result E Unit → Bool
  is_ok (ok _) = true
  is_ok (err e) = false

  -- Whether `verifyBlockSignature` answers true; it counts a failure where it does not.
  unfoldable pub signature_passes : BlockSignature → Bool
  unfolding is_ok cids_pass is_empty
  signature_passes sig =
      if not (is_ok (verify_block_signature crypto (some sig)))
      then false
      else if is_empty sig.cids
      then true
      else cids_pass
          (verify_cid_list_against_merkle_root decode_cid merkle_root crypto.hex_bytes (some sig))

  unfoldable pub observed_by : String → ℕ → Option ObservedAttesters → Option ObservedAttesters
  unfolding observe
  observed_by identity now none = none
  observed_by identity now (some o) = some (observe identity now o)

  -- A verified signature: its identity is observed, the check is counted, and it is cached.
  unfoldable pub trusted : BlockSignature → ℕ → BlockSignatureCache → Host Database → Host Database
  unfolding observed_by increment_signature_verifications add
  trusted sig now cache h = record h {
    attesters = observed_by sig.signature_identity now h.attesters;
    metrics = counted increment_signature_verifications h.metrics;
    verifier = some (add (some sig) cache);
  }

  timed : ℕ → Host Database → Host Database
  unfolding update_last_processing_time
  timed elapsed h = record h { metrics = counted (update_last_processing_time elapsed) h.metrics }

  unfoldable pub distrusted : Host Database → Host Database
  unfolding increment_signature_failures
  distrusted h = record h { metrics = counted increment_signature_failures h.metrics }

  process_block_signature :
      BlockSignature → ℕ → ℕ → Option BlockSignatureCache → Host Database → Host Database
  unfolding signature_passes trusted process_attestations_from_block_signature timed distrusted
  process_block_signature sig now elapsed none h = timed elapsed h
  process_block_signature sig now elapsed (some cache) h =
      if signature_passes sig
      then timed elapsed (process_attestations_from_block_signature sig (trusted sig now cache h))
      else distrusted h

  module _ {Float : Type 0} (truncate : Float → ℤ) where
    processed_with : Result ExtractError BlockSignature → ℕ → ℕ → Host Database → Host Database
    unfolding process_block_signature
    processed_with (err e) now elapsed h = h
    processed_with (ok sig) now elapsed h = process_block_signature sig now elapsed h.verifier h

    -- `now` is the time of the observation and `elapsed` the bits of the milliseconds taken.
    unfoldable pub process_block_signature_document :
        (String → Option (Value Float)) → ℕ → ℕ → Host Database → Host Database
    unfolding processed_with
    process_block_signature_document doc now elapsed h =
        processed_with (block_signature_of truncate doc) now elapsed h
