-- ===== src/Snapshot/Import.antt =====
-- pkg/snapshot/importer.go: a snapshot is checked against its signature and then imported. The
-- database, the cryptography and the JSON decoder answer through `Services`; a file is what its
-- gzip stream yields, `none` where it cannot be opened.
pub mod Verified
pub mod Roots
pub mod Forged
use shinzo_host_client.Prelude.{
  ℕ, ◌+◌, ◌*◌, ◌^◌, String, Bool, true, false, not, ◌&&◌, Option, none, some, List, [], ◌∷◌, ◌==◌,
  nat_eq, string_eq, if◌then◌else◌, length, take, drop, ltb, Map,
}
use shinzo_host_client.Prelude.Int.{ℤ}
use shinzo_host_client.Prelude.Bytes.{bytes_eq}
use shinzo_host_client.Prelude.Results.{Result, ok, err, ◌>>=◌, or_error}
use shinzo_host_client.Pruner.DocId
use shinzo_host_client.Pruner.DocId.{Bytes, decode_hex, encode_hex}
use shinzo_host_client.Snapshot.Merkle.{compute_snapshot_merkle_root}

pub data Error : Type 0 where
  decode_merkle_root decode_signature unsupported_sig_type parse_public_key verify_error : Error
  invalid_signature open_snapshot read_header_length read_header parse_header_error : Error
  invalid_snapshot_magic no_block_signatures decode_block_sig_root merkle_root_mismatch : Error
  block_sig_count_mismatch block_sig_root_mismatch expected_one_field_mapping : Error
  resolve_collection collection_not_found import_raw_kvs_error : Error

-- Hex text is a list of bytes.
pub record SignatureData : Type 0 where
  pub start_block : ℤ
  pub end_block : ℤ
  pub merkle_root : Bytes
  pub signature_type : String
  pub signature_identity : String
  pub signature_value : Bytes
  pub block_sig_merkle_roots : List Bytes

pub record CollectionFieldMapping : Type 0 where
  pub collection_id : String
  pub collection_short_id : ℕ
  pub field_id_mapping : Map ℕ String

pub record KvSnapshotHeader : Type 0 where
  pub magic : String
  pub start_block : ℤ
  pub end_block : ℤ
  pub block_sig_merkle_roots : List Bytes
  pub field_mappings : List CollectionFieldMapping

-- The mapping that is handed to the import.
pub record KvImportFieldMapping : Type 0 where
  pub collection_name : String
  pub collection_short_id : ℕ
  pub fields : Map ℕ String

pub record ImportResult : Type 0 where
  pub start_block : ℤ
  pub end_block : ℤ

pub data KeyType : Type 0 where
  secp256k1 ed25519 : KeyType

pub record Services (Key Database : Type 0) : Type 0 where
  pub sha256 : Bytes → Bytes
  pub public_key_from_string : KeyType → String → Option Key
  pub verify : Key → Bytes → Bytes → Option Bool
  pub parse_header : Bytes → Option KvSnapshotHeader
  pub get_collections : String → Database → Option (List String)
  pub import_raw_kvs : Option KvImportFieldMapping → Bytes → Database → Option ℕ × Database

abbrev hex_or : Error → DocId.Result Bytes → Result Error Bytes
hex_or e (DocId.ok bytes) = ok bytes
hex_or e (DocId.err _) = err e

pub key_type_of : String → Result Error KeyType
key_type_of t =
    if t == "ES256K"
    then ok secp256k1
    else if t == "ecdsa-256k"
    then ok secp256k1
    else if t == "Ed25519"
    then ok ed25519
    else if t == "ed25519"
    then ok ed25519
    else err unsupported_sig_type

-- `io.ReadFull`
abbrev read_full : ℕ → Bytes → Option (Bytes × Bytes)
read_full n s = if ltb (length s) n then none else some (take n s, drop n s)

-- `binary.BigEndian.Uint32`
big_endian : ℕ → Bytes → ℕ
big_endian acc [] = acc
big_endian acc (b ∷ s) = big_endian (acc * 256 + b) s

is_empty : List Bytes → Bool
is_empty [] = true
is_empty (r ∷ roots) = false

unfoldable pub decode_roots : List Bytes → Result Error (List Bytes)
decode_roots [] = ok []
decode_roots (r ∷ roots) = do
  bytes ← hex_or decode_block_sig_root (decode_hex r)
  rest ← decode_roots roots
  ok (bytes ∷ rest)

-- The hex text of a root; the one of nil is empty.
abbrev root_hex : Option Bytes → Bytes
root_hex none = []
root_hex (some root) = encode_hex root

-- The loop over the roots of two lists of one length.
same_roots : List Bytes → List Bytes → Result Error Unit
same_roots (r ∷ roots) (s ∷ header_roots) =
    let rest = same_roots roots header_roots in
    if not (r == s) then err block_sig_root_mismatch else rest
same_roots _ _ = ok tt

listed_roots : List Bytes → List Bytes → Result Error Unit
unfolding same_roots is_empty
listed_roots roots header_roots =
    if is_empty roots
    then ok tt
    else if not (length roots == length header_roots)
    then err block_sig_count_mismatch
    else same_roots roots header_roots

module _ {Key Database : Type 0} (services : Services Key Database) where
  open services use {
    sha256, public_key_from_string, verify, parse_header, get_collections, import_raw_kvs,
  }

  unfoldable pub verify_signature : SignatureData → Result Error Unit
  unfolding key_type_of
  verify_signature sig = do
    root ← hex_or decode_merkle_root (decode_hex sig.merkle_root)
    value ← hex_or decode_signature (decode_hex sig.signature_value)
    key_type ← key_type_of sig.signature_type
    key ← or_error parse_public_key (public_key_from_string key_type sig.signature_identity)
    valid ← or_error verify_error (verify key root value)
    (if not valid then err invalid_signature else ok tt)

  checked_header : KvSnapshotHeader → Bytes → Result Error (KvSnapshotHeader × Bytes)
  unfolding is_empty
  checked_header header rest =
      if not (header.magic == "DFKV")
      then err invalid_snapshot_magic
      else if is_empty header.block_sig_merkle_roots
      then err no_block_signatures
      else ok (header, rest)

  -- The header and what is left of the stream behind it.
  unfoldable pub read_snapshot_header : Bytes → Result Error (KvSnapshotHeader × Bytes)
  unfolding big_endian checked_header
  read_snapshot_header stream = do
    (len_buf, behind) ← or_error read_header_length (read_full 4 stream)
    (header_bytes, rest) ← or_error read_header (read_full (big_endian 0 len_buf) behind)
    header ← or_error parse_header_error (parse_header header_bytes)
    checked_header header rest

  unfoldable pub open_and_read_header : Option Bytes → Result Error (KvSnapshotHeader × Bytes)
  unfolding read_snapshot_header
  open_and_read_header file = do stream ← or_error open_snapshot file; read_snapshot_header stream

  unfoldable pub verify_header_against_sig : KvSnapshotHeader → SignatureData → Result Error Unit
  unfolding decode_roots listed_roots
  verify_header_against_sig header sig = do
    roots ← decode_roots header.block_sig_merkle_roots
    (if not (root_hex (compute_snapshot_merkle_root sha256 roots) == sig.merkle_root)
        then err merkle_root_mismatch
        else listed_roots sig.block_sig_merkle_roots header.block_sig_merkle_roots)

  import_mapping : CollectionFieldMapping → List String → Result Error KvImportFieldMapping
  import_mapping m [] = err collection_not_found
  import_mapping m (name ∷ names) = ok (record {
    collection_name = name;
    collection_short_id = m.collection_short_id;
    fields = m.field_id_mapping;
  })

  build_import_mapping : List CollectionFieldMapping → Database → Result Error KvImportFieldMapping
  unfolding import_mapping
  build_import_mapping (m ∷ []) db = do
    cols ← or_error resolve_collection (get_collections m.collection_id db)
    import_mapping m cols
  build_import_mapping _ db = err expected_one_field_mapping

  -- The mapping to import with: none where the header has none.
  mapping_for : List CollectionFieldMapping → Database → Result Error (Option KvImportFieldMapping)
  unfolding build_import_mapping
  mapping_for [] db = ok none
  mapping_for (m ∷ ms) db = do mapping ← build_import_mapping (m ∷ ms) db; ok (some mapping)

  imported : KvSnapshotHeader → Option ℕ × Database → Result Error ImportResult × Database
  imported header (none, db) = (err import_raw_kvs_error, db)
  imported header (some count, db) =
      (ok (record { start_block = header.start_block; end_block = header.end_block }), db)

  import_with :
      KvSnapshotHeader
      → Bytes
      → Result Error (Option KvImportFieldMapping)
      → Database
      → Result Error ImportResult × Database
  unfolding imported
  import_with header rest (err e) db = (err e, db)
  import_with header rest (ok mapping) db = imported header (import_raw_kvs mapping rest db)

  unfoldable pub import_kvs :
      KvSnapshotHeader → Bytes → Database → Result Error ImportResult × Database
  unfolding import_with mapping_for
  import_kvs header rest db = import_with header rest (mapping_for header.field_mappings db) db

  -- All that comes before the import.
  verified_snapshot : Option Bytes → SignatureData → Result Error (KvSnapshotHeader × Bytes)
  unfolding verify_signature open_and_read_header verify_header_against_sig
  verified_snapshot file sig = do
    _ ← verify_signature sig
    (header, rest) ← open_and_read_header file
    _ ← verify_header_against_sig header sig
    ok (header, rest)

  then_import :
      Result Error (KvSnapshotHeader × Bytes) → Database → Result Error ImportResult × Database
  unfolding import_kvs
  then_import (err e) db = (err e, db)
  then_import (ok (header, rest)) db = import_kvs header rest db

  unfoldable pub import_with_verification :
      Option Bytes → SignatureData → Database → Result Error ImportResult × Database
  unfolding verified_snapshot then_import
  import_with_verification file sig db = then_import (verified_snapshot file sig) db
