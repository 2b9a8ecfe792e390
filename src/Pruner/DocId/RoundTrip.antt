-- ===== src/Pruner/DocId/RoundTrip.antt =====
-- Packing a document ID and restoring it.

use shinzo_host_client.Prelude.{
  ℕ, suc, ◌+◌, ◌*◌, ◌/◌, ◌%◌, ◌<◌, ◌≡◌, ◌≢◌, refl, ap, Option, none, some, List, [], ◌∷◌, ◌++◌,
  nat_eq, length, take, drop, All, arith, take-append-drop, take-append-drop_at, All-take, All-drop,
}
use shinzo_host_client.Pruner.DocId.{
  Bytes, dash, ok, index_byte, extract_at, strip_dashes, from_hex_char, join_byte, decode_hex,
  hex_char, encode_hex, parse_uuid_hex, format_uuid, capture, extract_uuid, prefix_text,
  restore_doc_id,
}

-- `[uuidSize]byte`
pub record IsUuid (u : Bytes) : Type 0 where
  pub size : length u ≡ 16
  pub bytes : All (λ b. b < 256) u

abbrev pub HasNoDash : Bytes → Type 0
HasNoDash = All (λ c. c ≢ dash)

from_hex_char-hex_char : (n : ℕ) → n < 16 → from_hex_char (hex_char n) ≡ some n
unfolding from_hex_char hex_char
from_hex_char-hex_char n h = ground arith

pub decode_hex-encode_hex : (u : Bytes) → All (λ b. b < 256) u → decode_hex (encode_hex u) ≡ ok u
unfolding decode_hex encode_hex
decode_hex-encode_hex [] h = refl
decode_hex-encode_hex (b ∷ u) h =
    rw
      (
        from_hex_char-hex_char (b / 16) (ground arith),
        from_hex_char-hex_char (b % 16) (omega arith),
        decode_hex-encode_hex u h.1,
        join_byte,
      )
      (ap (λ c. ok (c ∷ u)) (div_mod_16 b))
  where
    div_mod_16 : (c : ℕ) → c / 16 * 16 + c % 16 ≡ c
    div_mod_16 c = omega arith

hex_char-ne-dash : (n : ℕ) → n < 16 → hex_char n ≢ dash
unfolding hex_char
hex_char-ne-dash n h = ground arith

encode_hex-HasNoDash : (u : Bytes) → All (λ b. b < 256) u → HasNoDash (encode_hex u)
unfolding encode_hex
encode_hex-HasNoDash [] h = tt
encode_hex-HasNoDash (b ∷ u) h = (
  hex_char-ne-dash (b / 16) (omega arith),
  (hex_char-ne-dash (b % 16) (omega arith), encode_hex-HasNoDash u h.1),
)

length-encode_hex : (u : Bytes) → length (encode_hex u) ≡ 2 * length u
unfolding encode_hex
length-encode_hex [] = refl
length-encode_hex (b ∷ u) = omega (arith, length-encode_hex u)

strip_dashes_absent : (s : Bytes) → HasNoDash s → strip_dashes s ≡ s
unfolding strip_dashes
strip_dashes_absent [] h = refl
strip_dashes_absent (c ∷ s) h = ground (arith, strip_dashes_absent s h.1, h.0)

strip_dashes-group :
    (s t : Bytes) → HasNoDash s → strip_dashes (s ++ (dash ∷ t)) ≡ s ++ strip_dashes t
unfolding strip_dashes
strip_dashes-group [] t h = refl
strip_dashes-group (c ∷ s) t h = ground (arith, strip_dashes-group s t h.1, h.0)

regroup :
    (h : Bytes)
    → take 8 h ++ (take 4 (drop 8 h) ++ (take 4 (drop 12 h) ++ (take 4 (drop 16 h) ++ drop 20 h)))
      ≡ h
regroup h = rw (
  take-append-drop_at 16 4 h,
  take-append-drop_at 12 4 h,
  take-append-drop_at 8 4 h,
  take-append-drop 8 h,
)

-- Stripping the dashes of a formatted UUID leaves its 32 hexadecimal digits.
strip_dashes-format_uuid :
    (u : Bytes) → All (λ b. b < 256) u → strip_dashes (format_uuid u) ≡ encode_hex u
unfolding format_uuid
strip_dashes-format_uuid u hu =
    let h = encode_hex u in
    let clean : HasNoDash h = encode_hex-HasNoDash u hu in
    rw
      (
        strip_dashes-group (take 8 h) _ (All-take _ 8 h clean),
        strip_dashes-group (take 4 (drop 8 h)) _ (All-take _ 4 _ (All-drop _ 8 h clean)),
        strip_dashes-group (take 4 (drop 12 h)) _ (All-take _ 4 _ (All-drop _ 12 h clean)),
        strip_dashes-group (take 4 (drop 16 h)) _ (All-take _ 4 _ (All-drop _ 16 h clean)),
        strip_dashes_absent (drop 20 h) (All-drop _ 20 h clean),
      )
      (regroup h)

pub parse_uuid_hex-format_uuid : (u : Bytes) → IsUuid u → parse_uuid_hex (format_uuid u) ≡ ok u
unfolding parse_uuid_hex
parse_uuid_hex-format_uuid u v =
    rw (strip_dashes-format_uuid u v.bytes, length-encode_hex u, v.size)
      (decode_hex-encode_hex u v.bytes)

index_byte-append :
    (s t : Bytes) → HasNoDash s → index_byte dash (s ++ (dash ∷ t)) ≡ some (length s)
unfolding index_byte
index_byte-append [] t h = refl
index_byte-append (c ∷ s) t h = ground (arith, index_byte-append s t h.1, h.0)

take-append_length {ℓ} : {A : Type ℓ} (xs ys : List A) → take (length xs) (xs ++ ys) ≡ xs
take-append_length [] ys = refl
take-append_length (x ∷ xs) ys = ap (◌∷◌ x) (take-append_length xs ys)

drop-append_length {ℓ} :
    {A : Type ℓ} (xs : List A) (y : A) (ys : List A) → drop (suc (length xs)) (xs ++ (y ∷ ys)) ≡ ys
drop-append_length [] y ys = refl
drop-append_length (x ∷ xs) y ys = drop-append_length xs y ys

-- For a UUID of 16 bytes and a document ID written with it after a prefix that holds no dash,
-- extraction returns the UUID, and captures the prefix exactly if none was captured before.
pub extract_uuid-format_uuid :
    (state : Option Bytes) (p u : Bytes)
    → HasNoDash p
    → IsUuid u
    → extract_uuid state (p ++ (dash ∷ format_uuid u)) ≡ (ok u, capture state p)
unfolding extract_uuid
extract_uuid-format_uuid state p u hp hu = rw (
  index_byte-append p (format_uuid u) hp,
  extract_at,
  take-append_length p (dash ∷ format_uuid u),
  drop-append_length p dash (format_uuid u),
  parse_uuid_hex-format_uuid u hu,
)

-- The captured prefix, if any, holds no dash.
abbrev pub IsPrefix : Option Bytes → Type 0
IsPrefix none = Unit
IsPrefix (some p) = HasNoDash p

prefix_text-HasNoDash : (state : Option Bytes) → IsPrefix state → HasNoDash (prefix_text state)
unfolding prefix_text
prefix_text-HasNoDash none h = tt
prefix_text-HasNoDash (some p) h = h

-- A document ID restored from 16 bytes is read back as the same 16 bytes, under any captured
-- prefix that holds no dash and also before any capture.
pub extract_uuid-restore_doc_id :
    (state : Option Bytes) (u : Bytes)
    → IsPrefix state
    → IsUuid u
    → extract_uuid state (restore_doc_id state u) ≡ (ok u, capture state (prefix_text state))
unfolding restore_doc_id
extract_uuid-restore_doc_id state u hp hu =
    extract_uuid-format_uuid state (prefix_text state) u (prefix_text-HasNoDash state hp) hu
