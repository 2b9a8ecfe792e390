-- ===== src/Attestation/Blocks/Collected.antt =====
-- What the CID collector of blockSignatureVerifier.go holds for a block.
use shinzo_host_client.Prelude.{
  ◌≡◌, refl, String, [], ◌∷◌, ◌++◌, ◌==◌, string_eq, if◌then◌else◌, lookup-insert, lookup-delete,
  Bool-cases, inl, inr,
}
use shinzo_host_client.Prelude.Int.{ℤ, int_eq}
use shinzo_host_client.Attestation.Blocks.{
  BlockCidCollector, slice, add_document_cid, get_block_cids, clear_block,
}

-- A document's CID is appended to its block's, and no other block's change.
pub get_block_cids-add_document_cid :
    (block other : ℤ) (doc_id doc_type cid : String) (c : BlockCidCollector)
    → get_block_cids other (add_document_cid block doc_id doc_type cid c)
      ≡ (if block == other then get_block_cids block c ++ (cid ∷ []) else get_block_cids other c)
unfolding get_block_cids add_document_cid slice
get_block_cids-add_document_cid block other doc_id doc_type cid c =
    rw (lookup-insert block other (slice block c.block_cids ++ (cid ∷ [])) c.block_cids)
      (elim (Bool-cases (block == other)) [
        | inl same ↦ rw same refl
        | inr different ↦ rw different refl
      ])

-- A cleared block has no CIDs, and no other block's change.
pub get_block_cids-clear_block :
    (block other : ℤ) (c : BlockCidCollector)
    → get_block_cids other (clear_block block c)
      ≡ (if block == other then [] else get_block_cids other c)
unfolding get_block_cids clear_block slice
get_block_cids-clear_block block other c =
    rw (lookup-delete block other c.block_cids) (elim (Bool-cases (block == other)) [
      | inl same ↦ rw same refl
      | inr different ↦ rw different refl
    ])
