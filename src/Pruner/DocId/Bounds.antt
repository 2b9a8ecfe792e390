-- ===== src/Pruner/DocId/Bounds.antt =====
-- What extraction returns: 16 bytes, and a prefix without a dash.

use shinzo_host_client.Prelude.{
  ℕ, zero, suc, ◌*◌, ◌<◌, ◌≡◌, refl, Bool, true, false, Option, none, some, [], ◌∷◌, ◌==◌, nat_eq,
  ==_iff, if◌then◌else◌, length, take, drop, All, arith, Option-cases, inl, inr, ◌⊎◌,
}
use shinzo_host_client.Pruner.DocId.{
  Bytes, dash, Error, invalid_uuid, Result, ok, err, index_byte, extract_at, strip_dashes,
  from_hex_char, join_byte, decode_hex, parse_uuid_hex, capture, extract_uuid,
}
use shinzo_host_client.Pruner.DocId.RoundTrip.{IsUuid, HasNoDash, IsPrefix}

from_hex_char-lt : (c : ℕ) {n : ℕ} → from_hex_char c ≡ some n → n < 16
unfolding from_hex_char
from_hex_char-lt c h = ground arith

join_byte-IsUuid :
    (a b : Option ℕ) (rest : Result Bytes) {u : Bytes} (k : ℕ)
    → ((n : ℕ) → a ≡ some n → n < 16)
    → ((n : ℕ) → b ≡ some n → n < 16)
    → ((v : Bytes) → rest ≡ ok v → (2 * length v ≡ k) × All (λ c. c < 256) v)
    → join_byte a b rest ≡ ok u
    → (2 * length u ≡ suc (suc k)) × All (λ c. c < 256) u
unfolding join_byte
join_byte-IsUuid (some a) (some b) (ok v) k ha hb hr e =
    ground (arith, ha a refl, hb b refl, hr v refl)
join_byte-IsUuid (some a) (some b) (err x) k ha hb hr e = cc
join_byte-IsUuid (some a) none rest k ha hb hr e = cc
join_byte-IsUuid none b rest k ha hb hr e = cc

decode_hex-bytes :
    (s : Bytes) {u : Bytes} → decode_hex s ≡ ok u → (2 * length u ≡ length s) × All (λ c. c < 256) u
unfolding decode_hex
decode_hex-bytes [] e = ground arith
decode_hex-bytes (a ∷ []) e = cc
decode_hex-bytes (a ∷ b ∷ s) e =
    join_byte-IsUuid _ _ (decode_hex s) (length s) (λ n. from_hex_char-lt a)
      (λ n. from_hex_char-lt b) (λ v. decode_hex-bytes s) e

guarded-eq-ok :
    (b : Bool) (r : Result Bytes) (x : Error) {u : Bytes}
    → (if b then r else err x) ≡ ok u
    → (b ≡ true) × (r ≡ ok u)
guarded-eq-ok true r x h = (refl, h)
guarded-eq-ok false r x h = cc

parse_uuid_hex-IsUuid : (s : Bytes) {u : Bytes} → parse_uuid_hex s ≡ ok u → IsUuid u
unfolding parse_uuid_hex
parse_uuid_hex-IsUuid s {u} e =
    let clean = strip_dashes s in
    let (size, decoded) = guarded-eq-ok (length clean == 32) (decode_hex clean) invalid_uuid e in
    let (twice, bytes) = decode_hex-bytes clean decoded in
    let n = (==_iff (length clean) 32).0 size in record { size = omega arith; bytes = bytes }

index_byte-HasNoDash : (s : Bytes) (i : ℕ) → index_byte dash s ≡ some i → HasNoDash (take i s)
unfolding index_byte
index_byte-HasNoDash [] i h = cc
index_byte-HasNoDash (c ∷ s) zero h = tt
index_byte-HasNoDash (c ∷ s) (suc i) h = ground (arith, index_byte-HasNoDash s i)

capture-IsPrefix :
    (state : Option Bytes) (p : Bytes) → IsPrefix state → HasNoDash p → IsPrefix (capture state p)
unfolding capture
capture-IsPrefix none p h hp = hp
capture-IsPrefix (some q) p h hp = h

-- The UUID that is returned, if one is.
pub extract_uuid-cases :
    (state : Option Bytes) (doc_id : Bytes)
    → IsPrefix state
    → ((u : Bytes) → (extract_uuid state doc_id).0 ≡ ok u → IsUuid u)
      × IsPrefix (extract_uuid state doc_id).1
unfolding extract_uuid
extract_uuid-cases state doc_id h = elim (Option-cases (index_byte dash doc_id)) [
  | inl e ↦ rw (e, extract_at) ((λ u p. cc), h)
  | inr (i, e) ↦
      rw (e, extract_at)
        (
          (λ u. parse_uuid_hex-IsUuid (drop (suc i) doc_id)),
          capture-IsPrefix state (take i doc_id) h (index_byte-HasNoDash doc_id i e),
        )
]

-- From any document ID, extraction returns a UUID of 16 bytes or an error, and if the captured
-- prefix held no dash, the one it leaves captured holds none.
pub extract_uuid-IsUuid :
    (state : Option Bytes) (doc_id : Bytes)
    → IsPrefix state
    → (((u : Bytes) × ((extract_uuid state doc_id).0 ≡ ok u) × IsUuid u)
        ⊎ ((e : Error) × ((extract_uuid state doc_id).0 ≡ err e)))
      × IsPrefix (extract_uuid state doc_id).1
extract_uuid-IsUuid state doc_id h =
    let (is_uuid, is_prefix) = extract_uuid-cases state doc_id h in
    (returned (extract_uuid state doc_id).0 refl is_uuid, is_prefix)
  where
    returned :
        (r : Result Bytes)
        → (extract_uuid state doc_id).0 ≡ r
        → ((u : Bytes) → (extract_uuid state doc_id).0 ≡ ok u → IsUuid u)
        → ((u : Bytes) × ((extract_uuid state doc_id).0 ≡ ok u) × IsUuid u)
          ⊎ ((e : Error) × ((extract_uuid state doc_id).0 ≡ err e))
    returned (ok u) e is_uuid = inl (u, e, is_uuid u e)
    returned (err x) e is_uuid = inr (x, e)
