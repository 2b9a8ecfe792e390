-- ===== src/Host/Signature/Undecodable.antt =====
-- What the CID check of attestationHandler.go does not see: CIDs that do not decode.
use shinzo_host_client.Prelude.{◌≡◌, refl, String, false, none, some, List, [], ◌∷◌, ◌++◌, arith}
use shinzo_host_client.Attestation.Blocks.{
  BlockSignature, decodable, compute_merkle_root_from_strings, verify_cids_against_block_signature,
  verify_cid_list_against_merkle_root,
}
use shinzo_host_client.Attestation.Blocks.Verify.{verify_block_signature}
use shinzo_host_client.Host.Signature.{Services, signature_passes, is_empty}

-- The block signature with one more CID behind the others.
abbrev pub with_cid : BlockSignature → String → BlockSignature
with_cid sig s = record sig { cids = sig.cids ++ (s ∷ []) }

module _ {Cid Key Database : Type 0} (services : Services Cid Key Database) where
  open services use {crypto, decode_cid, merkle_root}

  decodable-append :
      (s : String) (cids : List String)
      → decode_cid s ≡ none
      → decodable decode_cid merkle_root crypto.hex_bytes (cids ++ (s ∷ []))
        ≡ decodable decode_cid merkle_root crypto.hex_bytes cids
  unfolding decodable
  decodable-append s [] e = rw e refl
  decodable-append s (c ∷ cids) e = rw (decodable-append s cids e) refl

  verify_cid_list-undecodable :
      (sig : BlockSignature) (s : String)
      → decode_cid s ≡ none
      → is_empty sig.cids ≡ false
      → verify_cid_list_against_merkle_root decode_cid merkle_root crypto.hex_bytes
          (some (with_cid sig s))
        ≡ verify_cid_list_against_merkle_root decode_cid merkle_root crypto.hex_bytes (some sig)
  unfolding verify_cid_list_against_merkle_root verify_cids_against_block_signature
      compute_merkle_root_from_strings is_empty
  verify_cid_list-undecodable sig s e l = go sig.cids l
    where
      go :
          (cids : List String)
          → is_empty cids ≡ false
          → verify_cid_list_against_merkle_root decode_cid merkle_root crypto.hex_bytes
              (some (record sig { cids = cids ++ (s ∷ []) }))
            ≡ verify_cid_list_against_merkle_root decode_cid merkle_root crypto.hex_bytes
                (some (record sig { cids = cids }))
      go [] l = absurd (ground (arith, l))
      go (c ∷ cids) l = rw (decodable-append s (c ∷ cids) e) refl

  verify_block_signature-with_cid :
      (sig : BlockSignature) (s : String)
      → verify_block_signature crypto (some (with_cid sig s))
        ≡ verify_block_signature crypto (some sig)
  unfolding verify_block_signature
  verify_block_signature-with_cid sig s = refl

  is_empty-append : (cids : List String) (s : String) → is_empty (cids ++ (s ∷ [])) ≡ false
  unfolding is_empty
  is_empty-append [] s = refl
  is_empty-append (c ∷ cids) s = refl

  -- A CID that does not decode can be put behind those of any block signature that has some: the
  -- signature passes as it did before.
  pub signature_passes-undecodable :
      (sig : BlockSignature) (s : String)
      → decode_cid s ≡ none
      → is_empty sig.cids ≡ false
      → signature_passes services (with_cid sig s) ≡ signature_passes services sig
  unfolding signature_passes
  signature_passes-undecodable sig s e l = ground (
    arith,
    l,
    is_empty-append sig.cids s,
    verify_block_signature-with_cid sig s,
    verify_cid_list-undecodable sig s e l,
  )
