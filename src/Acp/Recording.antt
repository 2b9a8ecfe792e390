-- ===== src/Acp/Recording.antt =====
-- pkg/acp/middleware.go: the submission of service records in the background. A request that served rows
-- waits for one of the places, its record runs there, and ends, which frees the place.
pub mod Conserved
pub mod Drained
mod Tests
use shinzo_host_client.Prelude.{
  ℕ, zero, suc, ◌+◌, String, Bool, true, false, ◌||◌, Option, none, some, List, [], ◌∷◌, ◌++◌, ltb,
  length, if◌then◌else◌,
}
use shinzo_host_client.Acp.Request.{Request}
use shinzo_host_client.Acp.Gate.{Outcome, passed, rejected, served, Services, wrap}

-- The pool and the rows of a record.
abbrev pub Job : Type 0
Job = String × ℕ

-- A record is submitted, fails, or panics; the last two are only logged.
pub data Ending : Type 0 where
  recorded record_failed record_panicked : Ending

pub record Records : Type 0 where
  pub waiting : List Job
  pub running : List Job
  pub ended : List (Job × Ending)

unfoldable pub default_record_concurrency : ℕ
default_record_concurrency = 64

unfoldable pub new_records : Records
new_records = record { waiting = []; running = []; ended = [] }

-- Without a recorder nothing is submitted.
unfoldable pub submit_record : Bool → Job → Records → Records
submit_record has_recorder j s =
    if has_recorder then record s { waiting = s.waiting ++ j ∷ [] } else s

start_first : List Job → Records → Records
start_first [] s = s
start_first (j ∷ waiting) s = record s { waiting = waiting; running = s.running ++ j ∷ [] }

-- The first that waits gets a place, if one is free.
unfoldable pub acquire : Records → Records
unfolding start_first default_record_concurrency
acquire s = if ltb (length s.running) default_record_concurrency then start_first s.waiting s else s

-- An element at a place, and the others.
take_out : ℕ → List Job → Option (Job × List Job)
take_out n [] = none
take_out zero (j ∷ jobs) = some (j, jobs)
take_out (suc n) (j ∷ jobs) = elim (take_out n jobs) [
  | none ↦ none
  | some (k, rest) ↦ some (k, j ∷ rest)
]

end_one : Ending → Option (Job × List Job) → Records → Records
end_one e none s = s
end_one e (some (j, running)) s = record s { running = running; ended = s.ended ++ (j, e) ∷ [] }

-- A running record ends.
unfoldable pub release : ℕ → Ending → Records → Records
unfolding end_one take_out
release n e s = end_one e (take_out n s.running) s

is_empty : List Job → Bool
is_empty [] = true
is_empty (j ∷ jobs) = false

-- Whether `Drain` returns.
unfoldable pub drains : Bool → Records → Bool
unfolding is_empty
drains is_done s = is_empty s.running || is_done

unfoldable pub jobs_of : {Address : Type 0} → Outcome Address → List Job
jobs_of passed = []
jobs_of (rejected status) = []
jobs_of (served payer response none) = []
jobs_of (served payer response (some j)) = j ∷ []

submit_all : List Job → Records → Records
unfolding submit_record
submit_all [] s = s
submit_all (j ∷ jobs) s = submit_all jobs (submit_record true j s)

-- A request, with a recorder.
unfoldable pub handle_request : {Address : Type 0} → Services Address → Request → Records → Records
unfolding submit_all jobs_of wrap
handle_request services r s = submit_all (jobs_of (wrap services r)) s
