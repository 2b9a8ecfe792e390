-- ===== src/Attestation/Blocks.antt =====
-- pkg/attestation/blockSignatureVerifier.go: the cache of block signatures, the check of a CID list
-- against one, and the collector of a block's CIDs. Maps are read in the order of their entries.
pub mod Cache
pub mod Collected
pub mod Verify
use shinzo_host_client.Prelude.{
  ℕ, String, Bool, true, false, not, ◌&&◌, ◌||◌, Option, none, some, List, [], ◌∷◌, ◌++◌, ◌==◌,
  nat_eq, string_eq, if◌then◌else◌, length, Map, lookup, insert, delete, ltb, suc,
}
use shinzo_host_client.Prelude.Int.{ℤ, pos, negsuc, int_eq, ltb_ℤ, leb_ℤ}

pub record BlockSignature : Type 0 where
  pub block_number : ℤ
  pub block_hash : String
  pub merkle_root : String
  pub cid_count : ℤ
  pub cids : List String
  pub signature_type : String
  pub signature_identity : String
  pub signature_value : String
  pub created_at : String

pub record BlockSignatureCache : Type 0 where
  pub signatures : Map ℤ BlockSignature
  pub max_size : ℕ

unfoldable pub new_block_signature_cache : ℤ → BlockSignatureCache
new_block_signature_cache (pos (suc n)) = record { signatures = []; max_size = suc n }
new_block_signature_cache _ = record { signatures = []; max_size = 10000 }

-- The loop for the least key, where -1 stands for none so far.
unfoldable pub min_block : Map ℤ BlockSignature → ℤ → ℤ
min_block [] least = least
min_block ((k, v) ∷ m) least = min_block m (if least == negsuc 0 || ltb_ℤ k least then k else least)

evict : ℕ → Map ℤ BlockSignature → Map ℤ BlockSignature
unfolding min_block
evict max_size m =
    if ltb max_size (length m)
    then (let least = min_block m (negsuc 0) in if leb_ℤ (pos 0) least then delete least m else m)
    else m

unfoldable pub add : Option BlockSignature → BlockSignatureCache → BlockSignatureCache
unfolding evict
add none c = c
add (some sig) c = record c {
  signatures = evict c.max_size (insert sig.block_number sig c.signatures);
}

unfoldable pub get : ℤ → BlockSignatureCache → Option BlockSignature
get block_number c = lookup block_number c.signatures

pub data Error : Type 0 where
  signature_nil compute_merkle_root decode_root : Error

pub data Result : Type 0 where
  ok : Bool → Result
  err : Error → Result

same_bytes : List ℕ → List ℕ → Bool
same_bytes [] [] = true
same_bytes (a ∷ xs) (b ∷ ys) = a == b && same_bytes xs ys
same_bytes _ _ = false

is_empty : List String → Bool
is_empty [] = true
is_empty (c ∷ cids) = false

-- The CIDs that decode, and their Merkle root; `none` is nil, for a list without one.
module _ {Cid : Type 0} (decode_cid : String → Option Cid)
    (merkle_root : List Cid → Option (List ℕ)) (decode_hex : String → Option (List ℕ)) where
  unfoldable pub decodable : List String → List Cid
  decodable [] = []
  decodable (s ∷ cids) = with_cid (decode_cid s) (decodable cids)
    where
      with_cid : Option Cid → List Cid → List Cid
      with_cid none parsed = parsed
      with_cid (some c) parsed = c ∷ parsed

  unfoldable pub compute_merkle_root_from_strings : List String → Option (List ℕ)
  unfolding decodable
  compute_merkle_root_from_strings cids = root (decodable cids)
    where
      root : List Cid → Option (List ℕ)
      root [] = none
      root (c ∷ parsed) = merkle_root (c ∷ parsed)

  unfoldable pub verify_cids_against_block_signature : List String → Option BlockSignature → Result
  unfolding compute_merkle_root_from_strings same_bytes
  verify_cids_against_block_signature cids none = err signature_nil
  verify_cids_against_block_signature cids (some sig) =
      computed (compute_merkle_root_from_strings cids)
    where
      expected : List ℕ → Option (List ℕ) → Result
      expected root none = err decode_root
      expected root (some bytes) = ok (same_bytes root bytes)

      computed : Option (List ℕ) → Result
      computed none = err compute_merkle_root
      computed (some root) = expected root (decode_hex sig.merkle_root)

  unfoldable pub verify_cid_list_against_merkle_root : Option BlockSignature → Result
  unfolding verify_cids_against_block_signature is_empty
  verify_cid_list_against_merkle_root none = ok false
  verify_cid_list_against_merkle_root (some sig) =
      if is_empty sig.cids
      then ok false
      else verify_cids_against_block_signature sig.cids (some sig)

-- The slice under a key; a missing one is empty.
or_nil : Option (List String) → List String
or_nil none = []
or_nil (some xs) = xs

unfoldable pub slice : ℤ → Map ℤ (List String) → List String
unfolding or_nil
slice k m = or_nil (lookup k m)

pub record BlockCidCollector : Type 0 where
  pub block_cids : Map ℤ (List String)
  pub block_docs : Map ℤ (List String)
  pub doc_types : Map String String

unfoldable pub new_block_cid_collector : BlockCidCollector
new_block_cid_collector = record { block_cids = []; block_docs = []; doc_types = [] }

unfoldable pub add_document_cid :
    ℤ → String → String → String → BlockCidCollector → BlockCidCollector
unfolding slice
add_document_cid block_number doc_id doc_type cid c = record {
  block_cids = insert block_number (slice block_number c.block_cids ++ (cid ∷ [])) c.block_cids;
  block_docs = insert block_number (slice block_number c.block_docs ++ (doc_id ∷ [])) c.block_docs;
  doc_types = insert doc_id doc_type c.doc_types;
}

unfoldable pub get_block_cids : ℤ → BlockCidCollector → List String
unfolding slice
get_block_cids block_number c = slice block_number c.block_cids

delete_all : List String → Map String String → Map String String
delete_all [] m = m
delete_all (k ∷ ks) m = delete_all ks (delete k m)

unfoldable pub clear_block : ℤ → BlockCidCollector → BlockCidCollector
unfolding slice delete_all
clear_block block_number c = record {
  block_cids = delete block_number c.block_cids;
  block_docs = delete block_number c.block_docs;
  doc_types = delete_all (slice block_number c.block_docs) c.doc_types;
}
