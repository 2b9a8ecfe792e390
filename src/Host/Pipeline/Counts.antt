-- ===== src/Host/Pipeline/Counts.antt =====
-- What processingPipeline.go counts.
use shinzo_host_client.Prelude.{
  ℕ, zero, suc, ◌+◌, ◌%◌, ◌^◌, ◌<◌, ◌≡◌, ◌∙◌, refl, ap, String, true, false, Option, none, some,
  List, [], ◌∷◌, string_eq, if◌then◌else◌, length, leb, arith,
}
use shinzo_host_client.Host.Metrics.{
  HostMetrics, counted, add1, increment_attestations_created, increment_documents_received,
  increment_document_by_type, update_most_recent_block,
}
use shinzo_host_client.Host.Signature.Retries.{Conflicts, calm, clash}
use shinzo_host_client.Host.Pipeline.{
  Document, DocumentJob, Counters, Context, finished, count_job, count_jobs, retry_after,
  attest_rounds, times, count_ending, max_retries, process_attestation_async,
}

-- The largest of a number and the jobs' block numbers.
unfoldable pub largest_block : ℕ → List DocumentJob → ℕ
largest_block n [] = n
largest_block n (j ∷ jobs) = largest_block (if leb j.block_number n then n else j.block_number) jobs

increment_document_by_type-fields :
    (t : String) (m : HostMetrics)
    → ((increment_document_by_type t m).documents_received ≡ m.documents_received)
      × ((increment_document_by_type t m).most_recent_block ≡ m.most_recent_block)
unfolding increment_document_by_type
increment_document_by_type-fields t m = ground arith

update_most_recent_block-fields :
    (n : ℕ) (m : HostMetrics)
    → ((update_most_recent_block n m).documents_received ≡ m.documents_received)
      × ((update_most_recent_block n m).most_recent_block
          ≡ (if leb n m.most_recent_block then m.most_recent_block else n))
unfolding update_most_recent_block
update_most_recent_block-fields n m = ground arith

count_job-fields :
    (now : ℕ) (j : DocumentJob) (m : HostMetrics)
    → ((count_job now j m).documents_received ≡ add1 m.documents_received)
      × ((count_job now j m).most_recent_block ≡ (
          if leb j.block_number m.most_recent_block then m.most_recent_block else j.block_number))
unfolding count_job increment_documents_received
count_job-fields now j m =
    let received = increment_documents_received now m in
    let (a, b) = increment_document_by_type-fields j.doc_type received in
    let typed = increment_document_by_type j.doc_type received in
    let (c, d) = update_most_recent_block-fields j.block_number typed in
    (c ∙ a, d ∙ ap (λ k. if leb j.block_number k then k else j.block_number) b)

-- Where the counter of received documents is a 64-bit word, counting the jobs of a batch adds their
-- number to it, modulo 2 ^ 64, and leaves the largest block number seen as the most recent block.
pub count_jobs-fields :
    (now : ℕ) (jobs : List DocumentJob) (m : HostMetrics)
    → m.documents_received < 2 ^ 64
    → ((count_jobs now jobs m).documents_received ≡ (m.documents_received + length jobs) % 2 ^ 64)
      × ((count_jobs now jobs m).most_recent_block ≡ largest_block m.most_recent_block jobs)
unfolding count_jobs largest_block add1
count_jobs-fields now [] m h = (omega (arith, h), refl)
count_jobs-fields now (j ∷ jobs) m h =
    let (a, b) = count_job-fields now j m in
    let (c, d) = count_jobs-fields now jobs (count_job now j m) (omega (arith, a)) in
    (omega (arith, a, c, h), d ∙ ap (λ n. largest_block n jobs) b)

module _ {Database : Type 0} (attest : Database → Option String × Database) (context : Context)
    (runs_after : (n : ℕ) → context.done_after n ≡ false)
    (runs_waiting : (n : ℕ) → context.done_waiting n ≡ false) where
  attest_rounds-success :
      (left n at : ℕ) (db db' last : Database)
      → Conflicts attest n db db'
      → attest db' ≡ (none, last)
      → n < left
      → attest_rounds attest context left at db ≡ (finished none, last)
  unfolding attest_rounds retry_after
  attest_rounds-success zero n at db db' last w p b = absurd (ground (arith, b))
  attest_rounds-success (suc left) zero at db db' last calm p b = rw p refl
  attest_rounds-success (suc zero) (suc n) at db db' last (clash {db' = next} e q c w) p b =
      absurd (ground (arith, b))
  attest_rounds-success (suc (suc left)) (suc n) at db db' last (clash {db' = next} e q c w) p b =
      rw q (
        rw (c, runs_after at, runs_waiting at)
          (attest_rounds-success (suc left) n (suc at) next db' last w p (omega (arith, b))))

times-created :
    (n : ℕ) (m : HostMetrics)
    → m.attestations_created < 2 ^ 64
    → ((times n increment_attestations_created m).attestations_created
        ≡ (m.attestations_created + n) % 2 ^ 64)
      × ((times n increment_attestations_created m).attestation_errors ≡ m.attestation_errors)
unfolding times increment_attestations_created
times-created zero m h = (omega (arith, h), refl)
times-created (suc n) m h =
    let (a, b) = times-created n (increment_attestations_created m) (omega arith) in
    (omega (arith, a, h), b)

-- An attestation whose context is not done and that meets fewer than ten transaction conflicts before
-- the database takes it leaves that database, and counts each document as attested and none as an
-- error, where the counter is a 64-bit word.
pub process_attestation_async-succeeds :
    {Database : Type 0} (attest_batch : List Document → Database → Option String × Database)
    (context : Context) (docs : List Document) (c : Counters) (m : HostMetrics) (n : ℕ)
    (db db' last : Database)
    → ((k : ℕ) → context.done_after k ≡ false)
    → ((k : ℕ) → context.done_waiting k ≡ false)
    → Conflicts (attest_batch docs) n db db'
    → attest_batch docs db' ≡ (none, last)
    → n < max_retries
    → c.metrics ≡ some m
    → m.attestations_created < 2 ^ 64
    → ((process_attestation_async attest_batch context true docs c db).1 ≡ last)
      × ((m' : HostMetrics) × ((process_attestation_async attest_batch context true docs c
              db).0.metrics
            ≡ some m')
          × (m'.attestations_created ≡ (m.attestations_created + length docs) % 2 ^ 64)
          × (m'.attestation_errors ≡ m.attestation_errors))
unfolding process_attestation_async count_ending
process_attestation_async-succeeds attest_batch context docs c m n db db' last after waiting w p b e
      h =
    let (created, errors) = times-created (length docs) m h in
    rw
      (attest_rounds-success (attest_batch docs) context after waiting max_retries n 0 db db' last w
        p b)
      (
        refl,
        (
          times (length docs) increment_attestations_created m,
          ap (counted (times (length docs) increment_attestations_created)) e,
          created,
          errors,
        ),
      )
