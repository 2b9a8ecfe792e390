-- ===== src/Attestation/Blocks/Verify.antt =====
-- pkg/attestation/blockSignatureVerifier.go: the check of a block signature. The cryptography and the
-- hex decoder answer through `Crypto`.
use shinzo_host_client.Prelude.{
  ℕ, String, Bool, not, Option, none, some, List, ◌==◌, string_eq, if◌then◌else◌,
}
use shinzo_host_client.Prelude.Results.{Result, ok, err, ◌>>=◌, or_error}
use shinzo_host_client.Attestation.Blocks.{BlockSignature}

pub data VerifyError : Type 0 where
  block_signature_nil decode_merkle_root decode_signature_value unsupported_signature_type :
      VerifyError
  parse_public_key signature_verification block_sig_verify_failed : VerifyError

pub data KeyType : Type 0 where
  secp256k1 ed25519 : KeyType

pub record Crypto (Key : Type 0) : Type 0 where
  pub hex_bytes : String → Option (List ℕ)
  pub public_key_from_string : KeyType → String → Option Key
  pub verify : Key → List ℕ → List ℕ → Option Bool

-- The switch on the signature's type.
unfoldable pub signature_key_type : String → Result VerifyError KeyType
signature_key_type t =
    if t == "ES256K"
    then ok secp256k1
    else if t == "ecdsa-256k"
    then ok secp256k1
    else if t == "Ed25519"
    then ok ed25519
    else if t == "ed25519"
    then ok ed25519
    else err unsupported_signature_type

module _ {Key : Type 0} (crypto : Crypto Key) where
  open crypto use {hex_bytes, public_key_from_string, verify}

  unfoldable pub verify_block_signature : Option BlockSignature → Result VerifyError Unit
  unfolding signature_key_type
  verify_block_signature none = err block_signature_nil
  verify_block_signature (some sig) = do
    root ← or_error decode_merkle_root (hex_bytes sig.merkle_root)
    value ← or_error decode_signature_value (hex_bytes sig.signature_value)
    key_type ← signature_key_type sig.signature_type
    key ← or_error parse_public_key (public_key_from_string key_type sig.signature_identity)
    valid ← or_error signature_verification (verify key root value)
    (if not valid then err block_sig_verify_failed else ok tt)
