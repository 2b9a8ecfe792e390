-- ===== src/Host/Signature/Trusted.antt =====
-- What attestationHandler.go has verified before it caches, observes or attests a block signature.
use shinzo_host_client.Prelude.{
  ℕ, ◌≡◌, ◌≢◌, ◌⊎◌, inl, inr, refl, ap, String, Bool, true, false, Option, none, some, List, [],
  ◌∷◌, lookup, arith, Bool-cases,
}
use shinzo_host_client.Prelude.Int.{ℤ, int_eq}
use shinzo_host_client.Prelude.Results.{Result, ok, err}
use shinzo_host_client.Attestation.Blocks
use shinzo_host_client.Attestation.Blocks.{
  BlockSignature, BlockSignatureCache, add, verify_cid_list_against_merkle_root,
}
use shinzo_host_client.Attestation.Blocks.Verify.{verify_block_signature}
use shinzo_host_client.Attestation.Post.{post_attestation_record}
use shinzo_host_client.Host.Extract.{Value, ExtractError, block_signature_of}
use shinzo_host_client.Host.Signature.{
  Host, Services, Outcome, success, fatal, exhausted, attempt, block_record,
  max_attestation_retries, timed, distrusted, observed_by, is_ok, cids_pass, signature_passes,
  trusted, stored_block, posted_with, posted_to, is_empty,
  process_attestations_from_block_signature, process_block_signature, processed_with,
  process_block_signature_document,
}

is_empty-eq : (cids : List String) → is_empty cids ≡ true → cids ≡ []
unfolding is_empty
is_empty-eq [] e = refl
is_empty-eq (c ∷ cids) e = absurd (ground arith)

module _ {Cid Key Database : Type 0} (services : Services Cid Key Database) where
  open services use {crypto, decode_cid, merkle_root}

  -- A block signature that verifies, with no CIDs or with a list that was not found to differ.
  pub record IsTrusted (sig : BlockSignature) : Type 0 where
    pub verified : verify_block_signature crypto (some sig) ≡ ok tt
    pub cids_checked :
        (sig.cids ≡ [])
        ⊎ (verify_cid_list_against_merkle_root decode_cid merkle_root crypto.hex_bytes (some sig)
            ≢ Blocks.ok false)

  is_ok-eq : {E : Type 0} (r : Result E Unit) → is_ok services r ≡ true → r ≡ ok tt
  unfolding is_ok
  is_ok-eq (ok a) p = refl
  is_ok-eq (err e) p = absurd (ground arith)

  cids_pass-Differs : (r : Blocks.Result) → cids_pass services r ≡ true → r ≢ Blocks.ok false
  unfolding cids_pass
  cids_pass-Differs r p e = absurd (ground (arith, ap (cids_pass services) e))

  pub signature_passes-IsTrusted :
      (sig : BlockSignature) → signature_passes services sig ≡ true → IsTrusted sig
  unfolding signature_passes
  signature_passes-IsTrusted sig p = record {
    verified = is_ok-eq (verify_block_signature crypto (some sig)) (ground arith);
    cids_checked = elim (Bool-cases (is_empty sig.cids)) [
      | inl none_listed ↦ inl (is_empty-eq sig.cids none_listed)
      | inr listed ↦ inr (
          cids_pass-Differs
            (verify_cid_list_against_merkle_root decode_cid merkle_root crypto.hex_bytes (some sig))
            (ground arith))
    ];
  }

  pub record IsUnchanged (before after : Host Database) : Type 0 where
    pub database : after.database ≡ before.database
    pub verifier : after.verifier ≡ before.verifier
    pub attesters : after.attesters ≡ before.attesters
    pub attested_blocks : after.attested_blocks ≡ before.attested_blocks

  -- A block signature is read from a document, trusted, cached and observed.
  pub record IsAccepted {Float : Type 0} (truncate : Float → ℤ)
      (doc : String → Option (Value Float)) (now : ℕ) (before after : Host Database) : Type 0 where
    pub sig : BlockSignature
    pub cache : BlockSignatureCache
    pub read : block_signature_of truncate doc ≡ ok sig
    pub holds : before.verifier ≡ some cache
    pub is_trusted : IsTrusted sig
    pub verifier : after.verifier ≡ some (add (some sig) cache)
    pub attesters :
        after.attesters ≡ observed_by services sig.signature_identity now before.attesters

  stored_block-fields :
      (n : ℤ) (b : Option Bool) (h : Host Database)
      → ((stored_block services n b h).verifier ≡ h.verifier)
        × ((stored_block services n b h).attesters ≡ h.attesters)
  unfolding stored_block
  stored_block-fields n (some b) h = (refl, refl)
  stored_block-fields n none h = (refl, refl)

  posted_with-fields :
      (sig : BlockSignature) (r : Outcome × Database) (h : Host Database)
      → ((posted_with services sig r h).verifier ≡ h.verifier)
        × ((posted_with services sig r h).attesters ≡ h.attesters)
  unfolding posted_with
  posted_with-fields sig (success, db) h =
      stored_block-fields sig.block_number (lookup sig.block_number h.attested_blocks) h
  posted_with-fields sig (fatal, db) h = (refl, refl)
  posted_with-fields sig (exhausted, db) h = (refl, refl)

  posted_to-fields :
      (sig : BlockSignature) (d : Option Database) (h : Host Database)
      → ((posted_to services sig d h).verifier ≡ h.verifier)
        × ((posted_to services sig d h).attesters ≡ h.attesters)
  unfolding posted_to
  posted_to-fields sig none h = (refl, refl)
  posted_to-fields sig (some db) h =
      posted_with-fields sig
        (attempt (post_attestation_record services.store (block_record sig)) max_attestation_retries
          db)
        h

  attested-fields :
      (sig : BlockSignature) (h : Host Database)
      → ((process_attestations_from_block_signature services sig h).verifier ≡ h.verifier)
        × ((process_attestations_from_block_signature services sig h).attesters ≡ h.attesters)
  unfolding process_attestations_from_block_signature
  attested-fields sig h = elim (Bool-cases (is_empty sig.cids)) [
    | inl e ↦ rw e (refl, refl)
    | inr e ↦ rw e (posted_to-fields sig h.database h)
  ]

  module _ {Float : Type 0} (truncate : Float → ℤ) where
    process-cases :
        (doc : String → Option (Value Float)) (now elapsed : ℕ) (sig : BlockSignature)
        (v : Option BlockSignatureCache) (h : Host Database)
        → block_signature_of truncate doc ≡ ok sig
        → h.verifier ≡ v
        → IsUnchanged h (process_block_signature services sig now elapsed v h)
          ⊎ IsAccepted truncate doc now h (process_block_signature services sig now elapsed v h)
    unfolding process_block_signature trusted timed distrusted
    process-cases doc now elapsed sig none h read held =
        inl (record { database = refl; verifier = refl; attesters = refl; attested_blocks = refl })
    process-cases doc now elapsed sig (some cache) h read held =
        elim (Bool-cases (signature_passes services sig)) [
          | inl passes ↦
              let fields = attested-fields sig (trusted services sig now cache h) in
              inr (
                rw passes (record {
                  sig = sig;
                  cache = cache;
                  read = read;
                  holds = held;
                  is_trusted = signature_passes-IsTrusted sig passes;
                  verifier = fields.0;
                  attesters = fields.1;
                }))
          | inr fails ↦ inl (
              rw fails (record {
                database = refl;
                verifier = refl;
                attesters = refl;
                attested_blocks = refl;
              }))
        ]

    -- Handling a document leaves the database, the cache, the attesters and the attested blocks as
    -- they are, or the document holds a block signature that verifies, whose CIDs are none or were
    -- not found to differ from its Merkle root; then the cache gains it and its identity is observed.
    pub process_block_signature_document-IsTrusted :
        (doc : String → Option (Value Float)) (now elapsed : ℕ) (h : Host Database)
        → IsUnchanged h (process_block_signature_document services truncate doc now elapsed h)
          ⊎ IsAccepted truncate doc now h
              (process_block_signature_document services truncate doc now elapsed h)
    unfolding process_block_signature_document
    process_block_signature_document-IsTrusted doc now elapsed h =
        go (block_signature_of truncate doc) refl
      where
        go :
            (r : Result ExtractError BlockSignature)
            → block_signature_of truncate doc ≡ r
            → IsUnchanged h (processed_with services truncate r now elapsed h)
              ⊎ IsAccepted truncate doc now h (processed_with services truncate r now elapsed h)
        go (ok sig) e = process-cases doc now elapsed sig h.verifier h e refl
        go (err e) d =
            inl (record {
              database = refl;
              verifier = refl;
              attesters = refl;
              attested_blocks = refl;
            })
