-- ===== src/Attestation/Documents/Saved.antt =====
-- What a batch of records saves: attestationRecordService.go.
use shinzo_host_client.Prelude.{◌⊎◌, String, Option, List, Map}
use shinzo_host_client.Attestation.Record.{Record, Stored, Slot}
use shinzo_host_client.Attestation.Record.Batch.{Attests}
use shinzo_host_client.Attestation.Record.Batch.Handed.{Hands, IsHeld}
use shinzo_host_client.Attestation.Post.{Store, lookup_existing_attestation}
use shinzo_host_client.Attestation.Documents.{or_nothing}

module _ {Database : Type 0} (store : Store Database) where
  open store use {save_many_documents}

  -- The document stored for an attested document, where its lookup finds one without an error.
  unfoldable pub stored_for : String → Database → Option Stored
  unfolding or_nothing
  stored_for key db = or_nothing store (lookup_existing_attestation store key db)

  -- What is handed to the save, for each document that a record of the batch attests.
  abbrev pub HandsAll : Map String Stored × List Slot → List (Option Record) → Database → Type 0
  HandsAll docs records db =
      (key other cid : String)
      → Attests key other records
      → IsHeld (stored_for key db) cid ⊎ Attests key cid records
      → Hands docs (stored_for key db) key cid
