-- ===== src/Host/Signature/Retries.antt =====
-- The retries of attestationHandler.go: an attestation is posted again after a transaction conflict.
use shinzo_host_client.Prelude.{
  ℕ, zero, suc, ◌<◌, ◌≡◌, ◌∙◌, refl, String, Bool, true, false, Option, none, some, lookup,
  lookup-insert, ==_iff, arith,
}
use shinzo_host_client.Prelude.Int.{int_eq}
use shinzo_host_client.Attestation.Blocks.{BlockSignature}
use shinzo_host_client.Attestation.Post.{post_attestation_record}
use shinzo_host_client.Host.Signature.{
  Host, Services, success, exhausted, is_transaction_conflict, answered, attempt, block_record,
  max_attestation_retries, is_empty, stored_block, posted_with, posted_to,
  process_attestations_from_block_signature,
}

-- So many posts in a row that fail with a transaction conflict, from one database to another.
pub data Conflicts {Database : Type 0} (post : Database → Option String × Database)
    : ℕ → Database → Database → Type 0 where
  calm : {db : Database} → Conflicts post zero db db
  clash :
      {n : ℕ} {db db' last : Database}
      → (e : String) → post db ≡ (some e, db')
      → is_transaction_conflict e ≡ true
      → Conflicts post n db' last
      → Conflicts post (suc n) db last

module _ {Database : Type 0} (post : Database → Option String × Database) where
  attempt-clash :
      (left : ℕ) (db db' : Database) (e : String)
      → post db ≡ (some e, db')
      → is_transaction_conflict e ≡ true
      → attempt post (suc left) db ≡ attempt post left db'
  unfolding attempt answered
  attempt-clash left db db' e p c = rw p (rw c refl)

  attempt-success :
      (left n : ℕ) (db db' last : Database)
      → Conflicts post n db db'
      → post db' ≡ (none, last)
      → n < left
      → attempt post left db ≡ (success, last)
  unfolding attempt answered
  attempt-success zero n db db' last w p b = absurd (ground (arith, b))
  attempt-success (suc left) zero db db' last calm p b = rw p refl
  attempt-success (suc left) (suc n) db db' last (clash {db' = next} e q c w) p b =
      attempt-clash left db next e q c ∙ attempt-success left n next db' last w p (omega (arith, b))

  attempt-exhausted :
      (left : ℕ) (db db' : Database)
      → Conflicts post left db db'
      → attempt post left db ≡ (exhausted, db')
  unfolding attempt
  attempt-exhausted zero db db' calm = refl
  attempt-exhausted (suc left) db db' (clash {db' = next} e q c w) =
      attempt-clash left db next e q c ∙ attempt-exhausted left next db' w

module _ {Cid Key Database : Type 0} (services : Services Cid Key Database) where
  open services use {store}

  IsPosted : BlockSignature → Database → Host Database → Type 0
  IsPosted sig last h =
      (h.database ≡ some last) × ((b : Bool) × (lookup sig.block_number h.attested_blocks ≡ some b))

  posted_with-IsPosted :
      (sig : BlockSignature) (last : Database) (h : Host Database) (o : Option Bool)
      → lookup sig.block_number h.attested_blocks ≡ o
      → IsPosted sig last (posted_with services sig (success, last) h)
  unfolding IsPosted posted_with stored_block
  posted_with-IsPosted sig last h (some b) e = rw e (refl, (b, e))
  posted_with-IsPosted sig last h none e = rw e (
    refl,
    (
      true,
      lookup-insert sig.block_number sig.block_number true h.attested_blocks
          ∙ ground (arith, (==_iff sig.block_number sig.block_number).1 refl),
    ),
  )

  posted_to-IsPosted :
      (sig : BlockSignature) (h : Host Database) (n : ℕ) (d : Option Database)
      (db db' last : Database)
      → d ≡ some db
      → Conflicts (post_attestation_record store (block_record sig)) n db db'
      → post_attestation_record store (block_record sig) db' ≡ (none, last)
      → n < max_attestation_retries
      → IsPosted sig last (posted_to services sig d h)
  unfolding posted_to
  posted_to-IsPosted sig h n d db db' last e w p b = rw e (
      rw
        (attempt-success (post_attestation_record store (block_record sig)) max_attestation_retries
          n db db' last w p b)
        (posted_with-IsPosted sig last h (lookup sig.block_number h.attested_blocks) refl))

  -- A block signature with CIDs is attested, where the host has a database and fewer than five
  -- conflicts stand before a post that the database takes: the host is left with that database, and
  -- the block counts as attested.
  pub process_attestations_from_block_signature-succeeds :
      (sig : BlockSignature) (h : Host Database) (n : ℕ) (db db' last : Database)
      → is_empty sig.cids ≡ false
      → h.database ≡ some db
      → Conflicts (post_attestation_record store (block_record sig)) n db db'
      → post_attestation_record store (block_record sig) db' ≡ (none, last)
      → n < max_attestation_retries
      → ((process_attestations_from_block_signature services sig h).database ≡ some last)
        × ((b : Bool) × (lookup sig.block_number
                (process_attestations_from_block_signature services sig h).attested_blocks
              ≡ some b))
  unfolding process_attestations_from_block_signature
  process_attestations_from_block_signature-succeeds sig h n db db' last listed d w p b =
      rw listed (unfold IsPosted in posted_to-IsPosted sig h n h.database db db' last d w p b)
