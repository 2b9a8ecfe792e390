-- ===== src/Host/Signature/Unfound.antt =====
-- The attestation records that attestationHandler.go posts for blocks, and the query that
-- attestationRecordService.go looks for them with.
use shinzo_host_client.Prelude.{
  ◌≡◌, ◌≢◌, ◌∙◌, inl, inr, refl, sym, ap, String, false, List, [], ◌∷◌, All, Any, arith,
}
use shinzo_host_client.Prelude.Int.{ℤ}
use shinzo_host_client.Prelude.Results.{Result, ok}
use shinzo_host_client.Prelude.Text.{wrap, show_int}
use shinzo_host_client.Prelude.Colons.{colons, colons-wrap, colons-show_int}
use shinzo_host_client.Attestation.Record.{Record}
use shinzo_host_client.Attestation.Blocks.{BlockSignature}
use shinzo_host_client.Attestation.Attested.{asked_doc, is_document_attested_via_block}
use shinzo_host_client.Host.Signature.{block_record}

colons-asked_doc : (n : ℤ) → colons (asked_doc n) ≡ 1
unfolding asked_doc colons
colons-asked_doc n = omega (arith, colons-wrap "block:" (show_int n), colons-show_int n)

block_record-asked_doc :
    (sig : BlockSignature) (n : ℤ) → (block_record sig).attested_doc_id ≢ asked_doc n
unfolding block_record colons
block_record-asked_doc sig n e = absurd (
    omega (
      arith,
      ap colons e,
      colons-asked_doc n,
      colons-wrap "block:" (wrap (show_int sig.block_number) (wrap ":" sig.merkle_root)),
      colons-wrap (show_int sig.block_number) (wrap ":" sig.merkle_root),
      colons-wrap ":" sig.merkle_root,
    ))

none_found :
    (sigs : List BlockSignature) (n : ℤ) (cid : String) (records : List Record)
    → All (λ r. (r.attested_doc_id ≡ asked_doc n) × Any (λ sig. r ≡ block_record sig) sigs) records
    → records ≡ []
none_found sigs n cid [] h = refl
none_found sigs n cid (r ∷ records) ((asked, posted), _) = absurd (none_asked sigs posted)
  where
    none_asked : (sigs : List BlockSignature) → Any (λ sig. r ≡ block_record sig) sigs → ⊥
    none_asked [] p = p
    none_asked (sig ∷ sigs) (inl made) =
        block_record-asked_doc sig n (sym (ap (λ (x : Record). x.attested_doc_id) made) ∙ asked)
    none_asked (sig ∷ sigs) (inr p) = none_asked sigs p

-- Let the database hold the records that the handler posts for block signatures, and let a query yield
-- those of them that are for the document asked for: no document is attested through any block.
pub is_document_attested_via_block-never :
    (query : String → String → Result String (List Record)) (sigs : List BlockSignature)
    (block_number : ℤ) (cid : String)
    → ((d t : String)
        → (records : List Record) × (query d t ≡ ok records)
          × All (λ r. (r.attested_doc_id ≡ d) × Any (λ sig. r ≡ block_record sig) sigs) records)
    → is_document_attested_via_block query block_number cid ≡ ok false
unfolding is_document_attested_via_block
is_document_attested_via_block-never query sigs block_number cid yields =
    let (records, found, h) = yields (asked_doc block_number) "Block" in
    rw (found ∙ ap ok (none_found sigs block_number cid records h)) refl
