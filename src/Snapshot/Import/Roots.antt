-- ===== src/Snapshot/Import/Roots.antt =====
-- What a signature of importer.go fixes of the header that is accepted under it.
use shinzo_host_client.Prelude.{
  ◌<◌, ◌≡◌, ◌⊎◌, ◌≢◌, ◌∙◌, inl, inr, sym, ap, Option, none, some, List, [], ◌∷◌, length, All, arith,
}
use shinzo_host_client.Prelude.Results.{ok}
use shinzo_host_client.Pruner.DocId.{Bytes, encode_hex}
use shinzo_host_client.Snapshot.Merkle.{compute_snapshot_merkle_root}
use shinzo_host_client.Snapshot.Merkle.Collisions.{
  Collision, inputs, compute_snapshot_merkle_root-All,
}
use shinzo_host_client.Snapshot.Merkle.Binding.{compute_snapshot_merkle_root-binds}
use shinzo_host_client.Snapshot.Import.{
  SignatureData, KvSnapshotHeader, Services, decode_roots, root_hex, verify_header_against_sig,
}
use shinzo_host_client.Snapshot.Import.Verified.{
  ok-injective, verify_header_against_sig-IsSigned, encode_hex-injective,
}

-- A hash of 32 bytes.
abbrev pub IsDigest : Bytes → Type 0
IsDigest h = (length h ≡ 32) × All (λ b. b < 256) h

encode_hex-digest : (h : Bytes) → length h ≡ 32 → encode_hex h ≢ []
unfolding encode_hex
encode_hex-digest [] n e = absurd (ground (arith, n))
encode_hex-digest (b ∷ h) n e = ground arith

root_hex-injective :
    (o p : Option Bytes)
    → (o ≡ none) ⊎ ((h : Bytes) × (o ≡ some h) × IsDigest h)
    → (p ≡ none) ⊎ ((h : Bytes) × (p ≡ some h) × IsDigest h)
    → root_hex o ≡ root_hex p
    → o ≡ p
root_hex-injective o p (inl a) (inl b) e = a ∙ sym b
root_hex-injective o p (inl a) (inr (y, b, (t, q))) e =
    absurd (encode_hex-digest y t (sym (ap root_hex b) ∙ sym e ∙ ap root_hex a))
root_hex-injective o p (inr (x, a, (s, d))) (inl b) e =
    absurd (encode_hex-digest x s (sym (ap root_hex a) ∙ e ∙ ap root_hex b))
root_hex-injective o p (inr (x, a, (s, d))) (inr (y, b, (t, q))) e =
    a ∙ ap some (encode_hex-injective x y d q (sym (ap root_hex a) ∙ e ∙ ap root_hex b)) ∙ sym b

module _ {Key Database : Type 0} (services : Services Key Database) where
  open services use {sha256}

  -- If every SHA-256 hash has 32 bytes: of two headers that are accepted under one signature and
  -- list as many block signature roots, the roots decode to the same bytes, or something hashed for the
  -- Merkle root of the one and something else hashed for that of the other have the same hash.
  pub verify_header_against_sig-binds :
      (sig : SignatureData) (first second : KvSnapshotHeader) (rs ss : List Bytes)
      → ((x : Bytes) → IsDigest (sha256 x))
      → verify_header_against_sig services first sig ≡ ok tt
      → verify_header_against_sig services second sig ≡ ok tt
      → decode_roots first.block_sig_merkle_roots ≡ ok rs
      → decode_roots second.block_sig_merkle_roots ≡ ok ss
      → length rs ≡ length ss
      → (rs ≡ ss) ⊎ Collision sha256 (inputs sha256 rs) (inputs sha256 ss)
  verify_header_against_sig-binds sig first second rs ss digest a b dr ds n =
      let x = verify_header_against_sig-IsSigned services first sig a in
      let y = verify_header_against_sig-IsSigned services second sig b in
      let ex : x.roots ≡ rs = ok-injective (sym x.decodes ∙ dr) in
      let ey : y.roots ≡ ss = ok-injective (sym y.decodes ∙ ds) in
      let same_hex : root_hex (compute_snapshot_merkle_root sha256 rs)
          ≡ root_hex (compute_snapshot_merkle_root sha256 ss) =
        sym (ap (λ l. root_hex (compute_snapshot_merkle_root sha256 l)) ex)
        ∙ x.root_matches
        ∙ sym y.root_matches
        ∙ ap (λ l. root_hex (compute_snapshot_merkle_root sha256 l)) ey in
      compute_snapshot_merkle_root-binds sha256 (λ z. (digest z).0) rs ss n
        (root_hex-injective (compute_snapshot_merkle_root sha256 rs)
          (compute_snapshot_merkle_root sha256 ss)
          (compute_snapshot_merkle_root-All sha256 IsDigest digest rs)
          (compute_snapshot_merkle_root-All sha256 IsDigest digest ss) same_hex)
