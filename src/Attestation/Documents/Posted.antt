-- ===== src/Attestation/Documents/Posted.antt =====
-- What attestationRecordService.go posts of documents without a verified version.
use shinzo_host_client.Prelude.{◌≡◌, refl, String, Bool, false, none, List, [], ◌∷◌, All}
use shinzo_host_client.Attestation.Record.{
  Version, Input, verified_cids, create_attestation_record, records_of, is_empty,
}
use shinzo_host_client.Attestation.Post.{Store}
use shinzo_host_client.Attestation.Documents.{Signature, post_batch, handle_batch}

module _ {Database : Type 0} (store : Store Database) (checks : String → Signature → Bool) where
  verified_cids-none :
      (versions : List (Version Signature))
      → All (λ v. checks v.cid v.signature ≡ false) versions
      → verified_cids checks versions ≡ []
  unfolding verified_cids
  verified_cids-none [] h = refl
  verified_cids-none (v ∷ versions) (h, hs) = rw h (verified_cids-none versions hs)

  records_of-none :
      (inputs : List (Input Signature))
      → All (λ i. All (λ v. checks v.cid v.signature ≡ false) i.versions) inputs
      → records_of checks inputs ≡ []
  unfolding records_of create_attestation_record is_empty
  records_of-none [] h = refl
  records_of-none (i ∷ inputs) (h, hs) =
      rw (verified_cids-none i.versions h) (records_of-none inputs hs)

  -- A batch of documents none of whose versions verifies is handled without an error and leaves the
  -- database as it is.
  pub handle_batch-unverified :
      (inputs : List (Input Signature)) (db : Database)
      → All (λ i. All (λ v. checks v.cid v.signature ≡ false) i.versions) inputs
      → handle_batch store checks inputs db ≡ (none, db)
  unfolding handle_batch post_batch
  handle_batch-unverified inputs db h = rw (records_of-none inputs h) refl
