-- ===== src/Host/Provenance.antt =====
-- pkg/host/DocumentProvenanceService.go: which documents a view processes, and what its outputs record
-- of their origin. Texts are lists of bytes; reasons are only for display and left out.
pub mod Loops
use shinzo_host_client.Prelude.{
  ℕ, zero, suc, ◌+◌, Bool, true, false, ◌||◌, Option, none, some, List, [], ◌∷◌, ◌++◌, ◌==◌, nat_eq,
  if◌then◌else◌, length, drop, leb, Map, lookup, insert,
}
use shinzo_host_client.Prelude.Bytes.{bytes_eq, codes, has_prefix, has_infix}
use shinzo_host_client.Pruner.DocId.{Bytes}

unfoldable pub default_max_processing_depth : ℕ
default_max_processing_depth = 5

pub data SkipType : Type 0 where
  no_skip depth_limit same_view_loop processing_chain_loop : SkipType

pub record ProcessingDecision : Type 0 where
  pub should_process : Bool
  pub skip_type : SkipType

pub record DocumentMetadata : Type 0 where
  pub source_collection : Bytes
  pub is_view_output : Bool
  pub view_id : Bytes
  pub processing_depth : ℕ
  pub processing_chain : Bytes
  pub document_type : Bytes
  pub original_doc_id : Bytes

-- A value of a document: a string, an `int` or `uint64`, or anything else, nil included.
pub data FieldValue : Type 0 where
  text : Bytes → FieldValue
  number : ℕ → FieldValue
  other : FieldValue

pub record PrimitiveDocument : Type 0 where
  pub id : Bytes
  pub type_ : Bytes
  pub block_number : ℕ
  pub fields : Map Bytes FieldValue
  pub metadata : DocumentMetadata

unfoldable pub initialize_metadata : PrimitiveDocument → DocumentMetadata
initialize_metadata doc =
    if doc.metadata.processing_depth == 0
    then record {
      source_collection = doc.type_;
      is_view_output = false;
      view_id = [];
      processing_depth = 0;
      processing_chain = [];
      document_type = doc.type_;
      original_doc_id = doc.id;
    }
    else doc.metadata

unfoldable pub empty_metadata : DocumentMetadata
empty_metadata = record {
  source_collection = [];
  is_view_output = false;
  view_id = [];
  processing_depth = 0;
  processing_chain = [];
  document_type = [];
  original_doc_id = [];
}

unfoldable pub convert_to_primitive_document :
    Bytes → Bytes → ℕ → Map Bytes FieldValue → PrimitiveDocument
unfolding empty_metadata
convert_to_primitive_document id type_ block_number fields = record {
  id = id;
  type_ = type_;
  block_number = block_number;
  fields = fields;
  metadata = empty_metadata;
}

skipped : SkipType → ProcessingDecision
skipped t = record { should_process = false; skip_type = t }

decide : DocumentMetadata → Bytes → ProcessingDecision
unfolding skipped default_max_processing_depth
decide m view_id =
    if leb default_max_processing_depth m.processing_depth
    then skipped depth_limit
    else if m.view_id == view_id
    then skipped same_view_loop
    else if has_infix m.processing_chain view_id
    then skipped processing_chain_loop
    else record { should_process = true; skip_type = no_skip }

unfoldable pub should_process_document : PrimitiveDocument → Bytes → ProcessingDecision
unfolding decide initialize_metadata
should_process_document doc view_id = decide (initialize_metadata doc) view_id

-- `strings.Replace` of the first occurrence by nothing.
remove_first : Bytes → Bytes → Bytes
remove_first old [] = []
remove_first old (c ∷ s) =
    let later = remove_first old s in
    if has_prefix (c ∷ s) old then drop (length old) (c ∷ s) else c ∷ later

generate_output_id : Bytes → Bytes → Bytes
unfolding remove_first
generate_output_id source_id view_id =
    remove_first (codes "bae-") source_id ++ (b'-' ∷ remove_first (codes "WASMView_") view_id)

unfoldable pub extend_chain : Bytes → Bytes → Bytes
extend_chain chain view_id = if chain == [] then view_id else chain ++ (b',' ∷ view_id)

unfoldable pub create_view_output_document :
    PrimitiveDocument → Bytes → Map Bytes FieldValue → PrimitiveDocument
unfolding generate_output_id extend_chain
create_view_output_document source_doc view_id output = record {
  id = generate_output_id source_doc.id view_id;
  type_ = source_doc.type_;
  block_number = source_doc.block_number;
  fields = output;
  metadata = record {
    source_collection = source_doc.metadata.source_collection;
    is_view_output = true;
    view_id = view_id;
    processing_depth = source_doc.metadata.processing_depth + 1;
    processing_chain = extend_chain source_doc.metadata.processing_chain view_id;
    document_type = source_doc.metadata.document_type;
    original_doc_id = source_doc.metadata.original_doc_id;
  };
}

kept_field :
    Bytes → Option FieldValue → Option FieldValue → Map Bytes FieldValue → Map Bytes FieldValue
kept_field field (some v) source result = result
kept_field field none none result = result
kept_field field none (some v) result = insert field v result

unfoldable pub preserve_filter_fields :
    Map Bytes FieldValue → Map Bytes FieldValue → List Bytes → Map Bytes FieldValue
unfolding kept_field
preserve_filter_fields source result [] = result
preserve_filter_fields source result (field ∷ required) =
    preserve_filter_fields source
      (kept_field field (lookup field result) (lookup field source) result) required

unfoldable pub get_required_fields_by_type : Map Bytes (List Bytes)
get_required_fields_by_type =
    (
      codes "Ethereum__Mainnet__Transaction",
      codes "from" ∷ codes "to" ∷ codes "hash" ∷ codes "blockNumber" ∷ [],
    )
    ∷ (codes "Ethereum__Mainnet__Block", codes "hash" ∷ codes "number" ∷ [])
    ∷ (codes "Ethereum__Mainnet__Log", codes "address" ∷ codes "topics" ∷ codes "blockNumber" ∷ [])
    ∷ (codes "Ethereum__Mainnet__AccessListEntry", codes "address" ∷ codes "storageKeys" ∷ [])
    ∷ (codes "Transaction", codes "from" ∷ codes "to" ∷ codes "hash" ∷ codes "blockNumber" ∷ [])
    ∷ (codes "Block", codes "hash" ∷ codes "number" ∷ [])
    ∷ (codes "Log", codes "address" ∷ codes "topics" ∷ codes "blockNumber" ∷ [])
    ∷ (codes "AccessListEntry", codes "address" ∷ codes "storageKeys" ∷ [])
    ∷ []

is_filled : Option FieldValue → Bool
is_filled (some (text s)) = if s == [] then false else true
is_filled (some (number n)) = true
is_filled _ = false

any_filled : Map Bytes FieldValue → List Bytes → Bool
unfolding is_filled
any_filled fields [] = false
any_filled fields (field ∷ required) = is_filled (lookup field fields) || any_filled fields required

required_or_common : Option (List Bytes) → List Bytes
required_or_common (some required) = required
required_or_common none = codes "from" ∷ codes "to" ∷ codes "hash" ∷ codes "address" ∷ []

-- Whether `ValidateDocumentForView` answers without an error.
unfoldable pub validate_document_for_view : PrimitiveDocument → Bool
unfolding any_filled required_or_common get_required_fields_by_type
validate_document_for_view doc =
    any_filled doc.fields (required_or_common (lookup doc.type_ get_required_fields_by_type))
