-- ===== src/Host/Events.antt =====
-- pkg/host/attestationHandler.go: the listener on the database's update events and the queue of the
-- documents that its workers take. The loops that make room in the queue run with no worker between
-- their steps. A context is given by when it is done, and nil is `none`.
pub mod Queued
pub mod Listening
use shinzo_host_client.Prelude.{
  ℕ, zero, suc, ◌+◌, String, Bool, true, false, Option, none, some, List, [], ◌∷◌, ◌++◌, ◌==◌,
  string_eq, if◌then◌else◌, length, drop, ltb, Map, lookup, insert, contains,
}
use shinzo_host_client.Prelude.Int.{ℤ, pos, negsuc}
use shinzo_host_client.Pruner.DocId.{Bytes}
use shinzo_host_client.Pruner.Queue.{Store, push}
use shinzo_host_client.Host.Metrics.{
  HostMetrics, counted, increment_documents_received, increment_document_by_type,
}
use shinzo_host_client.Host.Extract.{Value}
use shinzo_host_client.Host.Signature.{Host, Services, process_block_signature_document}

pub record DocEvent : Type 0 where
  pub doc_id : Bytes
  pub collection_name : String

pub record Update : Type 0 where
  pub collection_id : String
  pub doc_id : Bytes
  pub is_relay : Bool

-- The names that have a case in the loop.
abbrev known_names : List String
known_names =
    "Ethereum__Mainnet__BlockSignature" ∷ "Ethereum__Mainnet__Block"
    ∷ "Ethereum__Mainnet__Transaction" ∷ "Ethereum__Mainnet__Log"
    ∷ "Ethereum__Mainnet__AccessListEntry" ∷ "Ethereum__Mainnet__AttestationRecord" ∷ []

-- The loop over the collections, each with its name and its ID, as it fills `collectionIDToName`.
unfoldable pub init_known_collection_ids :
    List (String × String) → Map String String → Map String String
init_known_collection_ids [] names = names
init_known_collection_ids ((name, id) ∷ cols) names =
    init_known_collection_ids cols
      (if contains known_names name then insert id name names else names)

abbrev collections_with_metrics : List String
collections_with_metrics =
    "Ethereum__Mainnet__BlockSignature" ∷ "Ethereum__Mainnet__Transaction"
    ∷ "Ethereum__Mainnet__Log" ∷ "Ethereum__Mainnet__AccessListEntry" ∷ []

or_default : ℕ → ℤ → ℕ
or_default n (pos (suc m)) = suc m
or_default n _ = n

-- The workers and the capacity of the queue, from the configuration.
unfoldable pub init_doc_queue : ℤ → ℤ → ℕ × ℕ
unfolding or_default
init_doc_queue doc_worker_count doc_queue_size =
    (or_default 16 doc_worker_count, or_default 5000 doc_queue_size)

-- The loop of `enqueueDoc`: a full queue loses its oldest document.
unfoldable pub enqueue_rounds : ℕ → ℕ → DocEvent → List DocEvent → List DocEvent
enqueue_rounds zero capacity evt queue = queue
enqueue_rounds (suc rounds) capacity evt queue =
    let again = enqueue_rounds rounds capacity evt (drop 1 queue) in
    if ltb (length queue) capacity then queue ++ (evt ∷ []) else again

-- A round for each document in the queue, and one more.
unfoldable pub enqueue_doc : ℕ → DocEvent → List DocEvent → List DocEvent
unfolding enqueue_rounds
enqueue_doc capacity evt queue = enqueue_rounds (suc (length queue)) capacity evt queue

-- What the listener reads and changes.
pub record Listener : Type 0 where
  pub collection_names : Map String String
  pub prune_queue : Option Store
  pub metrics : Option HostMetrics
  pub capacity : ℕ
  pub doc_queue : List DocEvent

pushed : String → Bytes → Option Store → Option Store
unfolding push
pushed name doc_id none = none
pushed name doc_id (some s) = some (push name doc_id s)

received_metrics : ℕ → String → HostMetrics → HostMetrics
unfolding increment_documents_received increment_document_by_type
received_metrics now name m =
    let received = increment_documents_received now m in
    if contains collections_with_metrics name
    then increment_document_by_type name received
    else received

-- An update that a peer has sent.
relayed : ℕ → String → Bytes → Listener → Listener
unfolding received_metrics enqueue_doc
relayed now name doc_id l =
    let counted_one = record l { metrics = counted (received_metrics now name) l.metrics } in
    if name == "Ethereum__Mainnet__BlockSignature"
    then record counted_one {
      doc_queue =
          enqueue_doc l.capacity (record { doc_id = doc_id; collection_name = name }) l.doc_queue;
    }
    else counted_one

handle_known : ℕ → Update → Option String → Listener → Listener
unfolding pushed relayed
handle_known now u none l = l
handle_known now u (some name) l =
    let noted = record l { prune_queue = pushed name u.doc_id l.prune_queue } in
    if u.is_relay then relayed now name u.doc_id noted else noted

-- One update of the event bus.
unfoldable pub handle_update : ℕ → Update → Listener → Listener
unfolding handle_known
handle_update now u l = handle_known now u (lookup u.collection_id l.collection_names) l

-- What an attempt has found, or the rest of the loop unless the context is done.
found_or : {Doc : Type 0} → Bool → Option Doc → Option Doc → Option Doc
found_or cancelled (some doc) rest = some doc
found_or cancelled none rest = if cancelled then none else rest

-- The loop that fetches a document: what each attempt finds, and whether the context is done behind
-- it. Behind the last one, it does not matter.
unfoldable pub fetch_rounds : {Doc : Type 0} → (ℕ → Option Doc) → (ℕ → Bool) → ℕ → ℕ → Option Doc
unfolding found_or
fetch_rounds get cancelled zero attempt = none
fetch_rounds get cancelled (suc left) attempt =
    found_or (cancelled attempt) (get attempt) (fetch_rounds get cancelled left (suc attempt))

-- The database's collection of block signatures, where it has one: the IDs that are well-formed, and
-- the document that an attempt finds.
pub record Collection (DocId Float : Type 0) : Type 0 where
  pub has_collection : Bool
  pub new_doc_id : Bytes → Option DocId
  pub get_document : DocId → ℕ → Option (String → Option (Value Float))
  pub cancelled : ℕ → Bool

module _ {Cid Key Database DocId Float : Type 0} (services : Services Cid Key Database)
    (collection : Collection DocId Float) (truncate : Float → ℤ) where
  open collection use {has_collection, new_doc_id, get_document, cancelled}

  with_document : Option (String → Option (Value Float)) → ℕ → ℕ → Host Database → Host Database
  unfolding process_block_signature_document
  with_document none now elapsed h = h
  with_document (some doc) now elapsed h =
      process_block_signature_document services truncate doc now elapsed h

  with_doc_id : Option DocId → ℕ → ℕ → Host Database → Host Database
  unfolding with_document fetch_rounds
  with_doc_id none now elapsed h = h
  with_doc_id (some doc_id) now elapsed h =
      with_document (fetch_rounds (get_document doc_id) cancelled 10 0) now elapsed h

  from_database : Option Database → Bytes → ℕ → ℕ → Host Database → Host Database
  unfolding with_doc_id
  from_database none doc_id now elapsed h = h
  from_database (some db) doc_id now elapsed h =
      if has_collection then with_doc_id (new_doc_id doc_id) now elapsed h else h

  unfoldable pub process_block_signature_from_event_bus :
      Bytes → ℕ → ℕ → Host Database → Host Database
  unfolding from_database
  process_block_signature_from_event_bus doc_id now elapsed h =
      from_database h.database doc_id now elapsed h

  -- What a worker does with the document that it takes.
  unfoldable pub doc_worker_step : DocEvent → ℕ → ℕ → Host Database → Host Database
  unfolding process_block_signature_from_event_bus
  doc_worker_step evt now elapsed h =
      if evt.collection_name == "Ethereum__Mainnet__BlockSignature"
      then process_block_signature_from_event_bus evt.doc_id now elapsed h
      else h
