-- ===== src/Pruner/DocId.antt =====
-- pkg/pruner/docid_codec.go: document IDs packed to 16 bytes. Text is the list of its bytes.
-- `docIDPrefix` with its `sync.Once` is an option: `none` until the first capture.
pub mod RoundTrip
pub mod Bounds
use mathlib.Core.Option
use shinzo_host_client.Prelude.{
  ℕ, zero, suc, ◌+◌, ◌-◌, ◌*◌, ◌/◌, ◌%◌, Bool, ◌&&◌, Option, none, some, List, [], ◌∷◌, ◌++◌, leb,
  ltb, ◌==◌, nat_eq, if◌then◌else◌, length, take, drop,
}

abbrev pub Bytes : Type 0
Bytes = List ℕ

abbrev pub dash : ℕ
dash = b'-'

pub data Error : Type 0 where
  invalid_doc_id_format invalid_uuid invalid_hex : Error

pub data Result {ℓ} (A : Type ℓ) : Type ℓ where
  ok : A → Result A
  err : Error → Result A

-- strings.IndexByte
unfoldable pub index_byte : ℕ → Bytes → Option ℕ
index_byte b [] = none
index_byte b (c ∷ s) = if c == b then some 0 else Option.map suc (index_byte b s)

-- strings.ReplaceAll(s, "-", "")
unfoldable pub strip_dashes : Bytes → Bytes
strip_dashes [] = []
strip_dashes (c ∷ s) = let rest = strip_dashes s in if c == dash then rest else c ∷ rest

-- encoding/hex
unfoldable pub from_hex_char : ℕ → Option ℕ
from_hex_char c =
    if leb b'0' c && leb c b'9'
    then some (c - b'0')
    else if leb b'a' c && leb c b'f'
    then some (c - b'a' + 10)
    else if leb b'A' c && leb c b'F'
    then some (c - b'A' + 10)
    else none

-- one decoded byte in front of the rest
unfoldable pub join_byte : Option ℕ → Option ℕ → Result Bytes → Result Bytes
join_byte (some a) (some b) (ok rest) = ok ((a * 16 + b) ∷ rest)
join_byte (some a) (some b) (err e) = err e
join_byte (some a) none rest = err invalid_hex
join_byte none b rest = err invalid_hex

unfoldable pub decode_hex : Bytes → Result Bytes
unfolding from_hex_char join_byte
decode_hex [] = ok []
decode_hex (a ∷ []) = err invalid_hex
decode_hex (a ∷ b ∷ s) = join_byte (from_hex_char a) (from_hex_char b) (decode_hex s)

unfoldable pub hex_char : ℕ → ℕ
hex_char n = if ltb n 10 then b'0' + n else b'a' + (n - 10)

unfoldable pub encode_hex : Bytes → Bytes
unfolding hex_char
encode_hex [] = []
encode_hex (b ∷ s) = hex_char (b / 16) ∷ hex_char (b % 16) ∷ encode_hex s

unfoldable pub parse_uuid_hex : Bytes → Result Bytes
unfolding strip_dashes decode_hex
parse_uuid_hex s =
    let clean = strip_dashes s in if length clean == 32 then decode_hex clean else err invalid_uuid

-- h[:8] + "-" + h[8:12] + "-" + h[12:16] + "-" + h[16:20] + "-" + h[20:]
unfoldable pub format_uuid : Bytes → Bytes
unfolding encode_hex
format_uuid b =
    let h = encode_hex b in
    take 8 h
    ++ (dash
        ∷ (take 4 (drop 8 h)
            ++ (dash
                ∷ (take 4 (drop 12 h) ++ (dash ∷ (take 4 (drop 16 h) ++ (dash ∷ drop 20 h)))))))

-- docIDPrefixOnce.Do
unfoldable pub capture : Option Bytes → Bytes → Option Bytes
capture none p = some p
capture (some q) p = some q

extract_at : Option ℕ → Option Bytes → Bytes → Result Bytes × Option Bytes
extract_at none prefix doc_id = (err invalid_doc_id_format, prefix)
extract_at (some i) prefix doc_id =
    (parse_uuid_hex (drop (suc i) doc_id), capture prefix (take i doc_id))

-- The UUID of a document ID, and the prefix after the call.
unfoldable pub extract_uuid : Option Bytes → Bytes → Result Bytes × Option Bytes
unfolding index_byte extract_at parse_uuid_hex capture
extract_uuid prefix doc_id = extract_at (index_byte dash doc_id) prefix doc_id

-- `docIDPrefix`: empty before the first capture
unfoldable pub prefix_text : Option Bytes → Bytes
prefix_text none = []
prefix_text (some p) = p

unfoldable pub restore_doc_id : Option Bytes → Bytes → Bytes
unfolding prefix_text format_uuid
restore_doc_id prefix uuid = prefix_text prefix ++ (dash ∷ format_uuid uuid)
