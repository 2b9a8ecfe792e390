-- ===== src/Host/Streams.antt =====
-- Runs of the host's queue, of its batch writers and of the provenance of documents at concrete data.
use shinzo_host_client.Prelude.{
  ℕ, ◌≡◌, refl, true, none, List, [], ◌∷◌, nat_eq, string_eq, drop, length, ◌≤◌, All, arith,
}
use shinzo_host_client.Prelude.Int.{int_eq}
use shinzo_host_client.Host.Events.{Update, Listener}
use shinzo_host_client.Host.Events.Queued.{stream, gone}
use shinzo_host_client.Host.Events.Listening.{
  Happening, arrived, worked, listener_after, steps_of, listener_after-stream,
}
use shinzo_host_client.Host.Pipeline.{
  DocumentJob, WriterEvent, job, timer, queue_closed, batch_writer,
}
use shinzo_host_client.Host.Pipeline.Batches.{
  IsBatch, concat, jobs_before, stops, batch_writer-IsBatch,
}
use shinzo_host_client.Prelude.Bytes.{codes, has_prefix, has_infix}
use shinzo_host_client.Host.Provenance.{
  PrimitiveDocument, empty_metadata, convert_to_primitive_document, initialize_metadata,
  should_process_document, create_view_output_document,
}
use shinzo_host_client.Host.Provenance.Loops.{AllDistinct, source, output, Derived-AllDistinct}

abbrev a_listener : Listener
a_listener = record {
  collection_names = ("c1", "Ethereum__Mainnet__BlockSignature") ∷ [];
  prune_queue = none;
  metrics = none;
  capacity = 1;
  doc_queue = [];
}

abbrev an_update : ℕ → Update
an_update n = record { collection_id = "c1"; doc_id = n ∷ []; is_relay = true }

abbrev some_happenings : List Happening
some_happenings =
    arrived 3 (an_update 3) ∷ arrived 2 (an_update 2) ∷ worked ∷ arrived 1 (an_update 1) ∷ []

listener_after-stream_example :
    (listener_after a_listener some_happenings).doc_queue
    ≡ drop
        (gone 1 (steps_of a_listener.collection_names some_happenings))
        (stream (steps_of a_listener.collection_names some_happenings))
listener_after-stream_example = listener_after-stream a_listener some_happenings refl (omega arith)

abbrev a_job : ℕ → DocumentJob
a_job n = record { doc_id = "d"; doc_type = "Log"; block_number = n; doc_data = none }

abbrev some_events : List WriterEvent
some_events =
    job (a_job 1) ∷ job (a_job 2) ∷ job (a_job 3) ∷ timer ∷ job (a_job 4) ∷ queue_closed ∷ []

batch_writer-IsBatch_example :
    (concat (batch_writer 2 some_events (record { batch = []; flushed = [] })).flushed
      ≡ jobs_before some_events)
    × All (IsBatch 2) (batch_writer 2 some_events (record { batch = []; flushed = [] })).flushed
unfolding stops
batch_writer-IsBatch_example = batch_writer-IsBatch 2 (omega arith) some_events refl

abbrev a_source : PrimitiveDocument
a_source = convert_to_primitive_document (codes "bae-1") (codes "Log") 3 []

abbrev an_output : PrimitiveDocument
an_output = create_view_output_document a_source (codes "WASMView_A") []

Derived-AllDistinct_example :
    AllDistinct (codes "WASMView_A" ∷ []) × (length (codes "WASMView_A" ∷ []) ≤ 5)
unfolding convert_to_primitive_document empty_metadata should_process_document initialize_metadata
    has_infix has_prefix
Derived-AllDistinct_example = Derived-AllDistinct (
    output {next = an_output} (codes "WASMView_A") [] (λ e. absurd (ground (arith, e)))
      (source {doc = a_source} refl refl) refl refl)
