-- ===== src/Host/Pipeline.antt =====
-- pkg/host/processingPipeline.go: batch writers collect documents, and each batch is attested in the
-- background, with retries.
pub mod Batches
pub mod Counts
use shinzo_host_client.Prelude.{
  ℕ, zero, suc, ◌+◌, ◌%◌, ◌^◌, String, Bool, true, false, not, Option, none, some, List, [], ◌∷◌,
  ◌++◌, ◌==◌, nat_eq, string_eq, if◌then◌else◌, length, map, leb,
}
use shinzo_host_client.Prelude.Int.{ℤ, pos, negsuc, ◌+ℤ◌, ◌-ℤ◌, wrap64}
use shinzo_host_client.Attestation.Record.{Version, Input}
use shinzo_host_client.Attestation.Post.{Store}
use shinzo_host_client.Attestation.Documents.{
  Signature, VersionMap, extract_versions_from_document, no_versions, handle_batch,
}
use shinzo_host_client.Host.Metrics.{
  HostMetrics, counted, increment_attestations_created, increment_attestation_errors,
  increment_documents_received, increment_document_by_type, update_last_processing_time,
  update_most_recent_block,
}
use shinzo_host_client.Host.Signature.{is_transaction_conflict}

-- A document's data answer for the field `_version`.
abbrev pub DocData : Type 0
DocData = Option (List (Option VersionMap))

pub record DocumentJob : Type 0 where
  pub doc_id : String
  pub doc_type : String
  pub block_number : ℕ
  pub doc_data : DocData

pub record Document : Type 0 where
  pub id : String
  pub type_ : String
  pub block_number : ℕ
  pub doc_fields : DocData

or_default : ℕ → ℤ → ℕ
or_default n (pos (suc m)) = suc m
or_default n _ = n

pub record Settings : Type 0 where
  pub batch_writer_count : ℕ
  pub batch_size : ℕ
  pub batch_flush_interval_ms : ℕ
  pub use_block_signatures : Bool

unfoldable pub new_processing_pipeline : ℤ → ℤ → ℤ → Bool → Settings
unfolding or_default
new_processing_pipeline batch_writer_count batch_size batch_flush_interval_ms use_block_signatures =
    record {
      batch_writer_count = or_default 8 batch_writer_count;
      batch_size = or_default 1000 batch_size;
      batch_flush_interval_ms = or_default 100 batch_flush_interval_ms;
      use_block_signatures = use_block_signatures;
    }

-- A batch writer: the batch that it collects, and the batches that it has had processed.
pub record Writer : Type 0 where
  pub batch : List DocumentJob
  pub flushed : List (List DocumentJob)

-- What a round of the writer's loop meets.
pub data WriterEvent : Type 0 where
  job : DocumentJob → WriterEvent
  queue_closed timer context_done : WriterEvent

-- An empty batch stays, and nothing is processed.
flush_jobs : List DocumentJob → List (List DocumentJob) → Writer
flush_jobs [] flushed = record { batch = []; flushed = flushed }
flush_jobs (j ∷ jobs) flushed = record { batch = []; flushed = flushed ++ ((j ∷ jobs) ∷ []) }

unfoldable pub flush_batch : Writer → Writer
unfolding flush_jobs
flush_batch w = flush_jobs w.batch w.flushed

collect : ℕ → DocumentJob → Writer → Writer
unfolding flush_batch
collect batch_size j w =
    let more = record w { batch = w.batch ++ (j ∷ []) } in
    if leb batch_size (length more.batch) then flush_batch more else more

-- The loop over the events, the oldest first; it ends with the closed queue or the done context.
unfoldable pub batch_writer : ℕ → List WriterEvent → Writer → Writer
unfolding flush_batch collect
batch_writer batch_size [] w = w
batch_writer batch_size (job j ∷ events) w = batch_writer batch_size events (collect batch_size j w)
batch_writer batch_size (timer ∷ events) w = batch_writer batch_size events (flush_batch w)
batch_writer batch_size (queue_closed ∷ events) w = flush_batch w
batch_writer batch_size (context_done ∷ events) w = flush_batch w

-- The counters of the pipeline, and the metrics, if there are any.
pub record Counters : Type 0 where
  pub processed_count : ℤ
  pub pending_attestations_count : ℤ
  pub metrics : Option HostMetrics

count_job : ℕ → DocumentJob → HostMetrics → HostMetrics
unfolding increment_documents_received increment_document_by_type update_most_recent_block
count_job now j m =
    update_most_recent_block j.block_number
      (increment_document_by_type j.doc_type (increment_documents_received now m))

unfoldable pub count_jobs : ℕ → List DocumentJob → HostMetrics → HostMetrics
unfolding count_job
count_jobs now [] m = m
count_jobs now (j ∷ jobs) m = count_jobs now jobs (count_job now j m)

unfoldable pub document_of : DocumentJob → Document
document_of j = record {
  id = j.doc_id;
  type_ = j.doc_type;
  block_number = j.block_number;
  doc_fields = j.doc_data;
}

-- The counters, and the documents of the attestation that is started, if one is.
unfoldable pub process_batch :
    Bool → ℕ → List DocumentJob → Counters → Counters × Option (List Document)
unfolding count_jobs document_of
process_batch use_block_signatures now [] c = (c, none)
process_batch use_block_signatures now (j ∷ jobs) c =
    let processed = record c {
      processed_count = wrap64 (c.processed_count +ℤ pos (length (j ∷ jobs)));
      metrics = counted (count_jobs now (j ∷ jobs)) c.metrics;
    } in
    if use_block_signatures then (processed, none) else (
      record processed {
        pending_attestations_count = wrap64 (c.pending_attestations_count +ℤ pos 1);
      },
      some (map document_of (j ∷ jobs)),
    )

-- How the attempts of an attestation end: with an answer, or left without one.
pub data Ending : Type 0 where
  finished : Option String → Ending
  abandoned : Ending

-- Whether the context is done after an attempt, and while the delay runs.
pub record Context : Type 0 where
  pub done_after : ℕ → Bool
  pub done_waiting : ℕ → Bool

module _ {Database : Type 0} (attest : Database → Option String × Database)
    (context : Context) where
  open context use {done_after, done_waiting}

  -- The rest of a round; the last one does not wait.
  retry_after :
      ℕ → (Database → Ending × Database) → ℕ → Option String × Database → Ending × Database
  unfolding is_transaction_conflict
  retry_after left again attempt (none, db) = (finished none, db)
  retry_after zero again attempt (some e, db) = (finished (some e), db)
  retry_after (suc left) again attempt (some e, db) =
      let next = again db in
      if not (is_transaction_conflict e)
      then (finished (some e), db)
      else if done_after attempt
      then (finished (some e), db)
      else if done_waiting attempt
      then (abandoned, db)
      else next

  unfoldable pub attest_rounds : ℕ → ℕ → Database → Ending × Database
  unfolding retry_after
  attest_rounds zero attempt db = (finished none, db)
  attest_rounds (suc left) attempt db =
      retry_after left (attest_rounds left (suc attempt)) attempt (attest db)

times : ℕ → (HostMetrics → HostMetrics) → HostMetrics → HostMetrics
times zero update m = m
times (suc n) update m = times n update (update m)

count_ending : ℕ → Ending → Option HostMetrics → Option HostMetrics
unfolding times increment_attestation_errors increment_attestations_created
count_ending docs abandoned metrics = metrics
count_ending docs (finished (some e)) metrics =
    counted (times docs increment_attestation_errors) metrics
count_ending docs (finished none) metrics =
    counted (times docs increment_attestations_created) metrics

unfoldable pub max_retries : ℕ
max_retries = 10

-- `acquired` is whether the semaphore was free before the context was done.
unfoldable pub process_attestation_async :
    {Database : Type 0}
    → (List Document → Database → Option String × Database)
    → Context
    → Bool
    → List Document
    → Counters
    → Database
    → Counters × Database
unfolding attest_rounds count_ending max_retries
process_attestation_async attest_batch context acquired docs c db =
    let left = record c {
      pending_attestations_count = wrap64 (c.pending_attestations_count -ℤ pos 1);
    } in
    let (ending, after) = attest_rounds (attest_batch docs) context max_retries 0 db in
    if acquired
    then (record left { metrics = count_ending (length docs) ending c.metrics }, after)
    else (left, db)

-- pkg/host/attestationHandler.go: the inputs of the documents that have versions.
inputs_of : List Document → List (Input Signature)
unfolding extract_versions_from_document no_versions
inputs_of [] = []
inputs_of (d ∷ docs) =
    let rest = inputs_of docs in
    let versions = extract_versions_from_document d.doc_fields in
    if no_versions versions
    then rest
    else record { doc_id = d.id; doc_type = d.type_; versions = versions } ∷ rest

no_inputs : List (Input Signature) → Bool
no_inputs [] = true
no_inputs (i ∷ inputs) = false

unfoldable pub process_document_attestation_batch :
    {Database : Type 0}
    → Store Database
    → (String → Signature → Bool)
    → List Document
    → Database
    → Option String × Database
unfolding inputs_of no_inputs handle_batch
process_document_attestation_batch store checks docs db =
    let inputs = inputs_of docs in
    if no_inputs inputs then (none, db) else handle_batch store checks inputs db
