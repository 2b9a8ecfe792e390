-- ===== src/Snapshot/Import/Verified.antt =====
-- What importer.go has checked before it changes the database.
use shinzo_host_client.Prelude.{
  ◌<◌, ◌≡◌, ◌⊎◌, ◌∙◌, inl, inr, refl, sym, ap, Option, List, [], ◌∷◌, ◌==◌, nat_eq, ==_iff, length,
  Bool, true, false, not, if◌then◌else◌, All, arith, Bool-cases,
}
use mathlib.Core.Path.{subst}
use shinzo_host_client.Prelude.Bytes.{bytes_eq}
use shinzo_host_client.Prelude.Results.{Result, ok, err, ◌>>=◌, or_error}
use shinzo_host_client.Pruner.DocId
use shinzo_host_client.Pruner.DocId.{Bytes, decode_hex, encode_hex}
use shinzo_host_client.Pruner.DocId.RoundTrip.{decode_hex-encode_hex}
use shinzo_host_client.Snapshot.Merkle.{compute_snapshot_merkle_root}
use shinzo_host_client.Prelude.{Option, none, some}
use shinzo_host_client.Snapshot.Import.{
  Error, KeyType, hex_or, key_type_of, SignatureData, KvSnapshotHeader, ImportResult, Services,
  is_empty, decode_roots, root_hex, same_roots, listed_roots, verify_signature,
  open_and_read_header, verify_header_against_sig, import_kvs, verified_snapshot, then_import,
  import_with_verification,
}

pub ok-injective : {E A : Type 0} {a b : A} → ◌≡◌ {A = Result E A} (ok a) (ok b) → a ≡ b
ok-injective e = ground arith

bind-ok :
    {E A B : Type 0} (r : Result E A) (f : A → Result E B) (b : B)
    → (r >>= f) ≡ ok b
    → (a : A) × (r ≡ ok a) × (f a ≡ ok b)
bind-ok (ok a) f b e = (a, refl, e)
bind-ok (err x) f b e = absurd (ground arith)

hex_or-ok :
    {bytes : Bytes} (e : Error) (r : DocId.Result Bytes)
    → hex_or e r ≡ ok bytes
    → r ≡ DocId.ok bytes
hex_or-ok e (DocId.ok b) h = ap DocId.ok (ok-injective h)
hex_or-ok e (DocId.err x) h = absurd (ground (arith, h))

or_error-ok : {A : Type 0} {a : A} (e : Error) (o : Option A) → or_error e o ≡ ok a → o ≡ some a
or_error-ok e none h = absurd (ground (arith, h))
or_error-ok e (some b) h = ap some (ok-injective h)

same_roots-eq :
    (roots header_roots : List Bytes)
    → length roots ≡ length header_roots
    → same_roots roots header_roots ≡ ok tt
    → roots ≡ header_roots
unfolding same_roots
same_roots-eq [] [] n e = refl
same_roots-eq (r ∷ roots) (s ∷ header_roots) n e = elim (Bool-cases (r == s)) [
  | inl same ↦
      let tail = same_roots-eq roots header_roots (ground (arith, n)) (ground arith) in
      let head = (==_iff r s).0 same in ground arith
  | inr other ↦ absurd (ground arith)
]
same_roots-eq [] (s ∷ header_roots) n e = absurd (ground (arith, n))
same_roots-eq (r ∷ roots) [] n e = absurd (ground (arith, n))

listed_roots-eq :
    (roots header_roots : List Bytes)
    → listed_roots roots header_roots ≡ ok tt
    → (roots ≡ []) ⊎ (roots ≡ header_roots)
unfolding listed_roots is_empty
listed_roots-eq [] header_roots e = inl refl
listed_roots-eq (r ∷ roots) header_roots e =
    elim (Bool-cases (length (r ∷ roots) == length header_roots)) [
      | inl same ↦ inr (
          same_roots-eq (r ∷ roots) header_roots
            ((==_iff (length (r ∷ roots)) (length header_roots)).0 same) (ground arith))
      | inr other ↦ absurd (ground arith)
    ]

module _ {Key Database : Type 0} (services : Services Key Database) where
  open services use {sha256}

  -- A header and the signature data that it is signed by.
  pub record IsSigned (sig : SignatureData) (header : KvSnapshotHeader) : Type 0 where
    pub roots : List Bytes
    pub decodes : decode_roots header.block_sig_merkle_roots ≡ ok roots
    pub root_matches : root_hex (compute_snapshot_merkle_root sha256 roots) ≡ sig.merkle_root
    pub listed :
        (sig.block_sig_merkle_roots ≡ [])
        ⊎ (sig.block_sig_merkle_roots ≡ header.block_sig_merkle_roots)

  pub verify_header_against_sig-IsSigned :
      (header : KvSnapshotHeader) (sig : SignatureData)
      → verify_header_against_sig services header sig ≡ ok tt
      → IsSigned sig header
  unfolding verify_header_against_sig
  verify_header_against_sig-IsSigned header sig e =
      let (roots, decodes, checked) = bind-ok (decode_roots header.block_sig_merkle_roots) _ tt e in
      elim (Bool-cases (root_hex (compute_snapshot_merkle_root sha256 roots) == sig.merkle_root)) [
        | inl same ↦ record {
          roots = roots;
          decodes = decodes;
          root_matches =
              (==_iff (root_hex (compute_snapshot_merkle_root sha256 roots)) sig.merkle_root).0
                same;
          listed =
              listed_roots-eq sig.block_sig_merkle_roots header.block_sig_merkle_roots
                (ground arith);
        }
        | inr other ↦ absurd (ground arith)
      ]

  -- The signature verifies over the Merkle root, under the identity's key of a supported type.
  pub record Signs (sig : SignatureData) : Type 0 where
    pub root : Bytes
    pub value : Bytes
    pub key_type : KeyType
    pub key : Key
    pub decoded_root : decode_hex sig.merkle_root ≡ DocId.ok root
    pub decoded_value : decode_hex sig.signature_value ≡ DocId.ok value
    pub supported : key_type_of sig.signature_type ≡ ok key_type
    pub parsed : services.public_key_from_string key_type sig.signature_identity ≡ some key
    pub verifies : services.verify key root value ≡ some true

  verify_signature-Signs : (sig : SignatureData) → verify_signature services sig ≡ ok tt → Signs sig
  unfolding verify_signature
  verify_signature-Signs sig h =
      let (root, has_root, h) =
        bind-ok (hex_or Error.decode_merkle_root (decode_hex sig.merkle_root)) _ tt h in
      let (value, has_value, h) =
        bind-ok (hex_or Error.decode_signature (decode_hex sig.signature_value)) _ tt h in
      let (key_type, supported, h) = bind-ok (key_type_of sig.signature_type) _ tt h in
      let (key, parsed, h) =
        bind-ok
          (or_error Error.parse_public_key
            (services.public_key_from_string key_type sig.signature_identity))
          _ tt h in
      let (valid, checked, h) =
        bind-ok (or_error Error.verify_error (services.verify key root value)) _ tt h in
      record {
        root = root;
        value = value;
        key_type = key_type;
        key = key;
        decoded_root = hex_or-ok _ (decode_hex sig.merkle_root) has_root;
        decoded_value = hex_or-ok _ (decode_hex sig.signature_value) has_value;
        supported = supported;
        parsed = or_error-ok _ _ parsed;
        verifies = or_error-ok _ _ checked ∙ ap some (is_valid valid h);
      }
    where
      is_valid :
          (b : Bool) → (if not b then err Error.invalid_signature else ok tt) ≡ ok tt → b ≡ true
      is_valid true k = refl
      is_valid false k = absurd (ground (arith, k))

  -- A snapshot whose signature, header and roots have been checked, and its import.
  pub record IsVerified (file : Option Bytes) (sig : SignatureData) (db : Database)
      (out : Result Error ImportResult × Database) : Type 0 where
    pub header : KvSnapshotHeader
    pub rest : Bytes
    pub signed : verify_signature services sig ≡ ok tt
    pub signs : Signs sig
    pub opens : open_and_read_header services file ≡ ok (header, rest)
    pub matches : IsSigned sig header
    pub import_ : out ≡ import_kvs services header rest db

  -- Whatever file and signature are given, an import fails and leaves the database as it is, or the
  -- signature verifies over its Merkle root under the key of its identity, the file has a header whose
  -- roots have that Merkle root and are those that the signature lists, if it lists any, and what
  -- stands behind the header is imported.
  pub import_with_verification-IsVerified :
      (file : Option Bytes) (sig : SignatureData) (db : Database)
      → ((e : Error) × (import_with_verification services file sig db ≡ (err e, db)))
        ⊎ IsVerified file sig db (import_with_verification services file sig db)
  unfolding import_with_verification then_import
  import_with_verification-IsVerified file sig db = go (verified_snapshot services file sig) refl
    where
      go :
          (r : Result Error (KvSnapshotHeader × Bytes))
          → verified_snapshot services file sig ≡ r
          → ((e : Error) × (then_import services r db ≡ (err e, db)))
            ⊎ IsVerified file sig db (then_import services r db)
      go (err e) v = inl (e, refl)
      go (ok (header, rest)) v =
          let (signed, is_signed, v') =
            bind-ok (verify_signature services sig) _ (header, rest)
              (unfold verified_snapshot in v) in
          let ((header', rest'), opens, v'') =
            bind-ok (open_and_read_header services file) _ (header, rest) v' in
          let (checked, is_checked, same) =
            bind-ok (verify_header_against_sig services header' sig) _ (header, rest) v'' in
          let pair : (header', rest') ≡ (header, rest) = ok-injective same in
          inr (
            subst
              (λ (p : KvSnapshotHeader × Bytes).
                IsVerified file sig db (import_kvs services p.0 p.1 db))
              pair
              (record {
                header = header';
                rest = rest';
                signed = is_signed;
                signs = verify_signature-Signs sig is_signed;
                opens = opens;
                matches = verify_header_against_sig-IsSigned header' sig is_checked;
                import_ = refl;
              }))

pub encode_hex-injective :
    (x y : Bytes)
    → All (λ b. b < 256) x
    → All (λ b. b < 256) y
    → encode_hex x ≡ encode_hex y
    → x ≡ y
encode_hex-injective x y p q e =
    doc_ok-injective (sym (decode_hex-encode_hex x p) ∙ ap decode_hex e ∙ decode_hex-encode_hex y q)
  where
    doc_ok-injective :
        {a b : Bytes} → ◌≡◌ {A = DocId.Result Bytes} (DocId.ok a) (DocId.ok b) → a ≡ b
    doc_ok-injective h = ground arith
