-- ===== src/Attestation/Attested.antt =====
-- pkg/attestation/attestationRecordService.go: whether a document is attested through its block. The
-- query answers for an attested document and a document type.
use shinzo_host_client.Prelude.{
  String, string_eq, Bool, false, ◌||◌, List, [], ◌∷◌, if◌then◌else◌, contains,
}
use shinzo_host_client.Prelude.Int.{ℤ}
use shinzo_host_client.Prelude.Results.{Result, ok, err}
use shinzo_host_client.Prelude.Text.{wrap, show_int, contains_text}
use shinzo_host_client.Attestation.Record.{Record}

any_holds : String → List Record → Bool
any_holds cid [] = false
any_holds cid (r ∷ records) = contains r.cids cid || any_holds cid records

attested_by : String → Result String (List Record) → Result String Bool
unfolding any_holds contains_text
attested_by cid (err e) =
    if contains_text e "No attestation records found"
    then ok false
    else err (wrap "failed to query block attestation: " e)
attested_by cid (ok records) = ok (any_holds cid records)

-- The attested document that is asked for.
unfoldable pub asked_doc : ℤ → String
unfolding wrap show_int
asked_doc block_number = wrap "block:" (show_int block_number)

unfoldable pub is_document_attested_via_block :
    (String → String → Result String (List Record)) → ℤ → String → Result String Bool
unfolding attested_by asked_doc
is_document_attested_via_block query block_number document_cid =
    attested_by document_cid (query (asked_doc block_number) "Block")
