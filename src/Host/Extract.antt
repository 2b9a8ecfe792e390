-- ===== src/Host/Extract.antt =====
-- pkg/host/attestationHandler.go: the block signature that a document holds.
use shinzo_host_client.Prelude.{
  String, Option, none, some, List, [], ◌==◌, string_eq, if◌then◌else◌,
}
use shinzo_host_client.Prelude.Int.{ℤ, pos}
use shinzo_host_client.Prelude.Results.{Result, ok, err, ◌>>=◌}
use shinzo_host_client.Attestation.Record.{ListField, existing_values}
use shinzo_host_client.Attestation.Blocks.{BlockSignature}

-- A field's value: an `int64`, a `float64`, a string, a list, or anything else.
pub data Value (Float : Type 0) : Type 0 where
  int : ℤ → Value Float
  float : Float → Value Float
  text : String → Value Float
  list : ListField → Value Float
  other : Value Float

pub data ExtractError : Type 0 where
  missing_block_number missing_merkle_root empty_merkle_root : ExtractError

module _ {Float : Type 0} (truncate : Float → ℤ) where
  -- The conversion of a number; anything else leaves zero.
  number_of : Value Float → ℤ
  number_of (int n) = n
  number_of (float f) = truncate f
  number_of _ = pos 0

  merkle_root_of : Option (Value Float) → Result ExtractError String
  merkle_root_of none = err missing_merkle_root
  merkle_root_of (some (text s)) = if s == "" then err empty_merkle_root else ok s
  merkle_root_of (some _) = err empty_merkle_root

  block_number_of : Option (Value Float) → Result ExtractError ℤ
  unfolding number_of
  block_number_of none = err missing_block_number
  block_number_of (some v) = ok (number_of v)

  -- A document answers for the names of its fields; `none` is a field that it does not have.
  unfoldable pub extract_block_signature_core :
      (String → Option (Value Float)) → Result ExtractError BlockSignature
  unfolding block_number_of merkle_root_of
  extract_block_signature_core doc = do
    block_number ← block_number_of (doc "blockNumber")
    merkle_root ← merkle_root_of (doc "merkleRoot")
    ok (record {
      block_number = block_number;
      block_hash = "";
      merkle_root = merkle_root;
      cid_count = pos 0;
      cids = [];
      signature_type = "";
      signature_identity = "";
      signature_value = "";
      created_at = "";
    })

  -- The text of a field, or what stood there.
  text_or : String → Option (Value Float) → String
  text_or old (some (text s)) = s
  text_or old _ = old

  count_or : ℤ → Option (Value Float) → ℤ
  count_or old (some (int n)) = n
  count_or old (some (float f)) = truncate f
  count_or old _ = old

  unfoldable pub populate_block_signature_fields :
      (String → Option (Value Float)) → BlockSignature → BlockSignature
  unfolding text_or count_or
  populate_block_signature_fields doc sig = record sig {
    block_hash = text_or sig.block_hash (doc "blockHash");
    cid_count = count_or sig.cid_count (doc "cidCount");
    signature_type = text_or sig.signature_type (doc "signatureType");
    signature_identity = text_or sig.signature_identity (doc "signatureIdentity");
    signature_value = text_or sig.signature_value (doc "signatureValue");
    created_at = text_or sig.created_at (doc "createdAt");
  }

  cids_or : List String → Option (Value Float) → List String
  cids_or old (some (list items)) = existing_values items
  cids_or old _ = old

  -- A fresh signature has no CIDs, so that its list is the one appended to.
  unfoldable pub populate_block_signature_cids :
      (String → Option (Value Float)) → BlockSignature → BlockSignature
  unfolding cids_or existing_values
  populate_block_signature_cids doc sig = record sig { cids = cids_or sig.cids (doc "cids") }

  -- The block signature that a document holds.
  unfoldable pub block_signature_of :
      (String → Option (Value Float)) → Result ExtractError BlockSignature
  unfolding extract_block_signature_core populate_block_signature_fields
      populate_block_signature_cids
  block_signature_of doc = do
    sig ← extract_block_signature_core doc
    ok (populate_block_signature_cids doc (populate_block_signature_fields doc sig))
