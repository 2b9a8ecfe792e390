-- ===== src/Snapshot/Import/Forged.antt =====
-- What the Merkle root of importer.go does not tell apart: a block signature root and an inner node.
use shinzo_host_client.Prelude.{
  ◌<◌, ◌≡◌, ◌∙◌, refl, sym, ap, List, [], ◌∷◌, ◌++◌, ==_iff, All-append, arith,
}
use shinzo_host_client.Prelude.Bytes.{bytes_eq}
use shinzo_host_client.Prelude.Results.{ok}
use shinzo_host_client.Pruner.DocId
use shinzo_host_client.Pruner.DocId.{Bytes, decode_hex, encode_hex}
use shinzo_host_client.Pruner.DocId.RoundTrip.{decode_hex-encode_hex}
use shinzo_host_client.Snapshot.Merkle.{combine_pairs, reduce, first, compute_snapshot_merkle_root}
use shinzo_host_client.Snapshot.Import.{
  SignatureData, KvSnapshotHeader, Services, is_empty, decode_roots, root_hex, listed_roots,
  verify_header_against_sig,
}
use shinzo_host_client.Snapshot.Import.Verified.{ok-injective, verify_header_against_sig-IsSigned}
use shinzo_host_client.Snapshot.Import.Roots.{IsDigest}

-- The header with other block signature roots.
abbrev pub with_roots : KvSnapshotHeader → List Bytes → KvSnapshotHeader
with_roots header roots = record {
  magic = header.magic;
  start_block = header.start_block;
  end_block = header.end_block;
  block_sig_merkle_roots = roots;
  field_mappings = header.field_mappings;
}

decode_roots_one :
    (r r' : Bytes) → decode_hex r ≡ DocId.ok r' → decode_roots (r ∷ []) ≡ ok (r' ∷ [])
unfolding decode_roots
decode_roots_one r r' e = ground (arith, e)

decode_roots_two :
    (a b a' b' : Bytes)
    → decode_hex a ≡ DocId.ok a'
    → decode_hex b ≡ DocId.ok b'
    → decode_roots (a ∷ b ∷ []) ≡ ok (a' ∷ b' ∷ [])
unfolding decode_roots
decode_roots_two a b a' b' e f = ground (arith, e, f)

module _ {Key Database : Type 0} (services : Services Key Database) where
  open services use {sha256}

  merkle_root_pair :
      (a b : Bytes)
      → compute_snapshot_merkle_root sha256 (a ∷ b ∷ [])
        ≡ compute_snapshot_merkle_root sha256 ((sha256 a ++ sha256 b) ∷ [])
  unfolding compute_snapshot_merkle_root first reduce combine_pairs
  merkle_root_pair a b = refl

  accepted :
      (header : KvSnapshotHeader) (sig : SignatureData) (roots : List Bytes)
      → decode_roots header.block_sig_merkle_roots ≡ ok roots
      → root_hex (compute_snapshot_merkle_root sha256 roots) ≡ sig.merkle_root
      → sig.block_sig_merkle_roots ≡ []
      → verify_header_against_sig services header sig ≡ ok tt
  unfolding verify_header_against_sig listed_roots is_empty
  accepted header sig roots d e l = ground (
    arith,
    d,
    l,
    (==_iff (root_hex (compute_snapshot_merkle_root sha256 roots)) sig.merkle_root).1 e,
  )

  -- If every SHA-256 hash has 32 bytes: where the signature lists no roots and a header with two
  -- block signature roots is accepted, the header that has one root instead, the two hashes of those
  -- roots behind each other, is accepted too.
  pub verify_header_against_sig-merges :
      (header : KvSnapshotHeader) (sig : SignatureData) (a b a' b' : Bytes)
      → ((x : Bytes) → IsDigest (sha256 x))
      → sig.block_sig_merkle_roots ≡ []
      → header.block_sig_merkle_roots ≡ a ∷ b ∷ []
      → decode_hex a ≡ DocId.ok a'
      → decode_hex b ≡ DocId.ok b'
      → verify_header_against_sig services header sig ≡ ok tt
      → verify_header_against_sig services
          (with_roots header (encode_hex (sha256 a' ++ sha256 b') ∷ []))
          sig
        ≡ ok tt
  verify_header_against_sig-merges header sig a b a' b' digest unlisted two da db e =
      let x = verify_header_against_sig-IsSigned services header sig e in
      let roots : x.roots ≡ a' ∷ b' ∷ [] =
        ok-injective (sym x.decodes ∙ ap decode_roots two ∙ decode_roots_two a b a' b' da db) in
      let node = sha256 a' ++ sha256 b' in
      accepted (with_roots header (encode_hex node ∷ [])) sig (node ∷ [])
        (decode_roots_one (encode_hex node) node (
          decode_hex-encode_hex node
            (All-append (λ c. c < 256) (sha256 a') (sha256 b') (digest a').1 (digest b').1)))
        (ap root_hex
            (sym (merkle_root_pair a' b') ∙ ap (compute_snapshot_merkle_root sha256) (sym roots))
          ∙ x.root_matches)
        unlisted
