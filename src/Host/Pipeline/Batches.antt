-- ===== src/Host/Pipeline/Batches.antt =====
-- What a batch writer of processingPipeline.go has processed when it stops.
use shinzo_host_client.Prelude.{
  ℕ, ◌≤◌, ◌<◌, ◌≡◌, ◌∙◌, inl, inr, refl, sym, ap, Bool, true, false, List, [], ◌∷◌, ◌++◌, length,
  length-append, leb, All, All-append, arith, Bool-cases,
}
use mathlib.Core.List.{append_assoc, append-nil}
use shinzo_host_client.Host.Pipeline.{
  DocumentJob, Writer, WriterEvent, job, queue_closed, timer, context_done, flush_jobs, flush_batch,
  collect, batch_writer,
}

unfoldable pub concat : List (List DocumentJob) → List DocumentJob
concat [] = []
concat (b ∷ batches) = b ++ concat batches

concat-append :
    (batches : List (List DocumentJob)) (b : List DocumentJob)
    → concat (batches ++ (b ∷ [])) ≡ concat batches ++ b
unfolding concat
concat-append [] b = append-nil b
concat-append (c ∷ batches) b =
    ap (λ l. c ++ l) (concat-append batches b) ∙ sym (append_assoc c (concat batches) b)

-- The jobs that the writer takes before it stops, and whether it stops.
unfoldable pub jobs_before : List WriterEvent → List DocumentJob
jobs_before [] = []
jobs_before (job j ∷ events) = j ∷ jobs_before events
jobs_before (timer ∷ events) = jobs_before events
jobs_before (queue_closed ∷ events) = []
jobs_before (context_done ∷ events) = []

unfoldable pub stops : List WriterEvent → Bool
stops [] = false
stops (job j ∷ events) = stops events
stops (timer ∷ events) = stops events
stops (queue_closed ∷ events) = true
stops (context_done ∷ events) = true

abbrev pub IsBatch : ℕ → List DocumentJob → Type 0
IsBatch batch_size b = (1 ≤ length b) × (length b ≤ batch_size)

-- All that a writer has taken.
all_jobs : Writer → List DocumentJob
all_jobs w = concat w.flushed ++ w.batch

IsBounded : ℕ → Writer → Type 0
IsBounded batch_size w = (length w.batch < batch_size) × All (IsBatch batch_size) w.flushed

flush_jobs-all :
    (b : List DocumentJob) (flushed : List (List DocumentJob))
    → (concat (flush_jobs b flushed).flushed ≡ concat flushed ++ b)
      × ((flush_jobs b flushed).batch ≡ [])
unfolding flush_jobs
flush_jobs-all [] flushed = (sym (append-nil (concat flushed)), refl)
flush_jobs-all (j ∷ b) flushed = (concat-append flushed (j ∷ b), refl)

flush_jobs-IsBounded :
    (batch_size : ℕ) (b : List DocumentJob) (flushed : List (List DocumentJob))
    → length b ≤ batch_size
    → 1 ≤ batch_size
    → All (IsBatch batch_size) flushed
    → IsBounded batch_size (flush_jobs b flushed)
unfolding flush_jobs IsBounded
flush_jobs-IsBounded batch_size [] flushed h c f = (omega (arith, c), f)
flush_jobs-IsBounded batch_size (j ∷ b) flushed h c f = (
  omega (arith, c),
  All-append (IsBatch batch_size) flushed ((j ∷ b) ∷ []) f (((omega arith, h)), tt),
)

module _ (batch_size : ℕ) (positive : 1 ≤ batch_size) where
  collect-all :
      (j : DocumentJob) (w : Writer)
      → IsBounded batch_size w
      → (all_jobs (collect batch_size j w) ≡ all_jobs w ++ (j ∷ []))
        × IsBounded batch_size (collect batch_size j w)
  unfolding collect flush_batch all_jobs IsBounded
  collect-all j w (h, f) =
      let more = w.batch ++ (j ∷ []) in
      let sized = length-append w.batch (j ∷ []) in
      let (all, emptied) = flush_jobs-all more w.flushed in
      let assoc = append_assoc (concat w.flushed) w.batch (j ∷ []) in
      elim (Bool-cases (leb batch_size (length more))) [
        | inl full ↦ rw full (
          ap (λ b. concat (flush_jobs more w.flushed).flushed ++ b) emptied
              ∙ append-nil (concat (flush_jobs more w.flushed).flushed)
              ∙ all
              ∙ sym assoc,
          unfold IsBounded in
              flush_jobs-IsBounded batch_size more w.flushed (omega (arith, sized, h)) positive f,
        )
        | inr room ↦ rw room (sym assoc, (ground (arith, room), f))
      ]

  flush_batch-all :
      (w : Writer)
      → IsBounded batch_size w
      → (concat (flush_batch w).flushed ≡ all_jobs w)
        × IsBounded batch_size (flush_batch w)
        × ((flush_batch w).batch ≡ [])
  unfolding flush_batch all_jobs IsBounded
  flush_batch-all w (h, f) =
      let (all, emptied) = flush_jobs-all w.batch w.flushed in
      (
        all,
        (unfold IsBounded in
            flush_jobs-IsBounded batch_size w.batch w.flushed (omega (arith, h)) positive f),
        emptied,
      )

  flushed-All : (w : Writer) → IsBounded batch_size w → All (IsBatch batch_size) w.flushed
  unfolding IsBounded
  flushed-All w (h, f) = f

  flushed_jobs : (w : Writer) → w.batch ≡ [] → all_jobs w ≡ concat w.flushed
  unfolding all_jobs
  flushed_jobs w e = ap (λ b. concat w.flushed ++ b) e ∙ append-nil (concat w.flushed)

  batch_writer-all :
      (events : List WriterEvent) (w : Writer)
      → stops events ≡ true
      → IsBounded batch_size w
      → (concat (batch_writer batch_size events w).flushed ≡ all_jobs w ++ jobs_before events)
        × All (IsBatch batch_size) (batch_writer batch_size events w).flushed
  unfolding batch_writer stops jobs_before
  batch_writer-all [] w s b = absurd (ground (arith, s))
  batch_writer-all (job j ∷ events) w s b =
      let (one, bounded) = collect-all j w b in
      let (rest, batches) = batch_writer-all events (collect batch_size j w) s bounded in
      (
        rest
            ∙ ap (λ l. l ++ jobs_before events) one
            ∙ append_assoc (all_jobs w) (j ∷ []) (jobs_before events),
        batches,
      )
  batch_writer-all (timer ∷ events) w s b =
      let (all, bounded, emptied) = flush_batch-all w b in
      let (rest, batches) = batch_writer-all events (flush_batch w) s bounded in
      (
        rest ∙ ap (λ l. l ++ jobs_before events) (flushed_jobs (flush_batch w) emptied ∙ all),
        batches,
      )
  batch_writer-all (queue_closed ∷ events) w s b =
      let (all, bounded, emptied) = flush_batch-all w b in
      (all ∙ sym (append-nil (all_jobs w)), flushed-All (flush_batch w) bounded)
  batch_writer-all (context_done ∷ events) w s b =
      let (all, bounded, emptied) = flush_batch-all w b in
      (all ∙ sym (append-nil (all_jobs w)), flushed-All (flush_batch w) bounded)

  -- Let batches have room for a document. A writer that starts with nothing and stops, because the
  -- queue is closed or the context is done, has had every document processed that it took until then,
  -- once and in order, in batches that are not empty and not larger than the size of a batch.
  pub batch_writer-IsBatch :
      (events : List WriterEvent)
      → stops events ≡ true
      → (concat (batch_writer batch_size events (record { batch = []; flushed = [] })).flushed
          ≡ jobs_before events)
        × All
            (IsBatch batch_size)
            (batch_writer batch_size events (record { batch = []; flushed = [] })).flushed
  unfolding jobs_before all_jobs concat
  batch_writer-IsBatch events s =
      let w : Writer = record { batch = []; flushed = [] } in
      batch_writer-all events w s (unfold IsBounded in (omega (arith, positive), tt))
