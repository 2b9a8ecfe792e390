-- ===== src/Snapshot/Samples.antt =====
-- Snapshots and services for the tests.
use shinzo_host_client.Prelude.{
  ℕ, zero, suc, ◌%◌, some, List, [], ◌∷◌, ◌++◌, true, nat_eq, string_eq, length,
}
use shinzo_host_client.Prelude.Int.{pos}
use shinzo_host_client.Pruner.DocId.{Bytes, encode_hex}
use shinzo_host_client.Snapshot.Import.{SignatureData, KvSnapshotHeader, Services}

-- The first bytes of a text, in place of a hash of it.
unfoldable pub digest : ℕ → Bytes → Bytes
digest zero s = []
digest (suc n) [] = 0 ∷ digest n []
digest (suc n) (b ∷ s) = (b % 256) ∷ digest n s

abbrev pub roots_two : List Bytes
roots_two = (b'0' ∷ b'1' ∷ []) ∷ (b'0' ∷ b'2' ∷ []) ∷ []

abbrev pub header_two : KvSnapshotHeader
header_two = record {
  magic = "DFKV";
  start_block = pos 1;
  end_block = pos 2;
  block_sig_merkle_roots = roots_two;
  field_mappings = [];
}

abbrev pub sig_two : List Bytes → SignatureData
sig_two roots = record {
  start_block = pos 1;
  end_block = pos 2;
  merkle_root = encode_hex (digest 32 (digest 32 (1 ∷ []) ++ digest 32 (2 ∷ [])));
  signature_type = "ES256K";
  signature_identity = "indexer";
  signature_value = b'0' ∷ b'7' ∷ [];
  block_sig_merkle_roots = roots;
}

-- A database counts its key-value pairs.
abbrev pub services_two : Services Unit ℕ
services_two = record {
  sha256 = digest 32;
  public_key_from_string = λ t s. some tt;
  verify = λ k root value. some true;
  parse_header = λ s. some header_two;
  get_collections = λ i db. some [];
  import_raw_kvs = λ m rest db. (some (length rest), length rest);
}
