-- ===== src/Snapshot/Tests.antt =====
-- Imports of snapshots at concrete files.
use shinzo_host_client.Prelude.{
  ℕ, zero, suc, ◌<◌, ◌≡◌, ◌⊎◌, refl, inl, inr, some, List, [], ◌∷◌, ◌++◌, nat_eq, string_eq, length,
  All, arith,
}
use shinzo_host_client.Prelude.Int.{pos}
use shinzo_host_client.Prelude.Results.{ok, err}
use shinzo_host_client.Pruner.DocId.{Bytes, decode_hex, encode_hex}
use shinzo_host_client.Snapshot.Merkle.{combine_pairs, reduce, first, compute_snapshot_merkle_root}
use shinzo_host_client.Snapshot.Merkle.Collisions.{Collision, inputs}
use shinzo_host_client.Snapshot.Import.{
  Error, decode_roots, verify_signature, read_snapshot_header, open_and_read_header,
  verify_header_against_sig, import_kvs, import_with_verification,
}
use shinzo_host_client.Snapshot.Import.Verified.{IsVerified, import_with_verification-IsVerified}
use shinzo_host_client.Snapshot.Import.Roots.{IsDigest, verify_header_against_sig-binds}
use shinzo_host_client.Snapshot.Import.Forged.{with_roots, verify_header_against_sig-merges}
use shinzo_host_client.Snapshot.Samples.{digest, roots_two, header_two, sig_two, services_two}

digest-length : (n : ℕ) (s : Bytes) → length (digest n s) ≡ n
unfolding digest
digest-length zero s = refl
digest-length (suc n) [] = omega (arith, digest-length n [])
digest-length (suc n) (b ∷ s) = omega (arith, digest-length n s)

digest-All : (n : ℕ) (s : Bytes) → All (λ b. b < 256) (digest n s)
unfolding digest
digest-All zero s = tt
digest-All (suc n) [] = (omega arith, digest-All n [])
digest-All (suc n) (b ∷ s) = (omega arith, digest-All n s)

digest-IsDigest : (s : Bytes) → IsDigest (digest 32 s)
digest-IsDigest s = (digest-length 32 s, digest-All 32 s)

header_two_accepted :
    (roots : List Bytes)
    → (roots ≡ []) ⊎ (roots ≡ roots_two)
    → verify_header_against_sig services_two header_two (sig_two roots) ≡ ok tt
unfolding verify_header_against_sig decode_roots decode_hex encode_hex digest
    compute_snapshot_merkle_root first reduce combine_pairs
header_two_accepted roots (inl e) = rw e refl
header_two_accepted roots (inr e) = rw e refl

abbrev decoded_two : List Bytes
decoded_two = (1 ∷ []) ∷ (2 ∷ []) ∷ []

decode_two : decode_roots roots_two ≡ ok ((1 ∷ []) ∷ (2 ∷ []) ∷ [])
unfolding decode_roots decode_hex
decode_two = refl

import_with_verification-IsVerified_example :
    ((e : Error) × (import_with_verification services_two
          (some (0 ∷ 0 ∷ 0 ∷ 1 ∷ 9 ∷ 5 ∷ 6 ∷ []))
          (sig_two [])
          0
        ≡ (err e, 0)))
    ⊎ IsVerified services_two (some (0 ∷ 0 ∷ 0 ∷ 1 ∷ 9 ∷ 5 ∷ 6 ∷ [])) (sig_two []) 0 (
        import_with_verification services_two
          (some (0 ∷ 0 ∷ 0 ∷ 1 ∷ 9 ∷ 5 ∷ 6 ∷ []))
          (sig_two [])
          0)
import_with_verification-IsVerified_example =
    import_with_verification-IsVerified services_two (some (0 ∷ 0 ∷ 0 ∷ 1 ∷ 9 ∷ 5 ∷ 6 ∷ []))
      (sig_two []) 0

import_run :
    import_with_verification services_two (some (0 ∷ 0 ∷ 0 ∷ 1 ∷ 9 ∷ 5 ∷ 6 ∷ [])) (sig_two []) 0
    ≡ (ok (record { start_block = pos 1; end_block = pos 2 }), 2)
unfolding verify_header_against_sig decode_roots decode_hex encode_hex digest
    compute_snapshot_merkle_root first reduce combine_pairs import_with_verification
    verify_signature open_and_read_header read_snapshot_header import_kvs
import_run = refl

verify_header_against_sig-binds_example :
    (decoded_two ≡ decoded_two)
    ⊎ Collision (digest 32) (inputs (digest 32) decoded_two) (inputs (digest 32) decoded_two)
verify_header_against_sig-binds_example =
    verify_header_against_sig-binds services_two (sig_two []) header_two header_two decoded_two
      decoded_two digest-IsDigest (header_two_accepted [] (inl refl))
      (header_two_accepted [] (inl refl)) decode_two decode_two refl

verify_header_against_sig-merges_example :
    verify_header_against_sig services_two
      (with_roots header_two (encode_hex (digest 32 (1 ∷ []) ++ digest 32 (2 ∷ [])) ∷ []))
      (sig_two [])
    ≡ ok tt
unfolding decode_hex
verify_header_against_sig-merges_example =
    verify_header_against_sig-merges services_two header_two (sig_two []) (b'0' ∷ b'1' ∷ [])
      (b'0' ∷ b'2' ∷ []) (1 ∷ []) (2 ∷ []) digest-IsDigest refl refl refl refl
      (header_two_accepted [] (inl refl))
