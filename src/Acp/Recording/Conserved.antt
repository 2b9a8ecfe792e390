-- ===== src/Acp/Recording/Conserved.antt =====
-- No record is lost or doubled: middleware.go.
use shinzo_host_client.Prelude.{
  ℕ, zero, suc, ◌+◌, ◌≤◌, ◌<◌, ◌≡◌, refl, ap, Bool, true, Option, none, some, List, [], ◌∷◌, ◌++◌,
  map, ltb, length, length-append, count_p, count_p-append, arith, inl, inr, Bool-cases, ltb→lt,
}
use shinzo_host_client.Acp.Request.{Request}
use shinzo_host_client.Acp.Gate.{Services, wrap}
use shinzo_host_client.Acp.Recording.{
  Job, Ending, Records, default_record_concurrency, new_records, submit_record, start_first,
  acquire, take_out, end_one, release, jobs_of, submit_all, handle_request,
}

abbrev pub ended_jobs : Records → List Job
ended_jobs s = map (λ (e : Job × Ending). e.0) s.ended

module _ (p : Job → Bool) where
  -- How many records pass the test, in all places.
  abbrev pub everywhere : Records → ℕ
  everywhere s = count_p p s.waiting + count_p p s.running + count_p p (ended_jobs s)

  submit_all-everywhere :
      (jobs : List Job) (s : Records)
      → everywhere (submit_all jobs s) ≡ everywhere s + count_p p jobs
  unfolding submit_all submit_record count_p
  submit_all-everywhere [] s = omega arith
  submit_all-everywhere (j ∷ jobs) s = omega (
    arith,
    submit_all-everywhere jobs (record s { waiting = s.waiting ++ j ∷ [] }),
    count_p-append p s.waiting (j ∷ []),
  )

  start_first-everywhere :
      (waiting : List Job) (s : Records)
      → s.waiting ≡ waiting
      → everywhere (start_first waiting s) ≡ everywhere s
  unfolding start_first count_p
  start_first-everywhere [] s e = refl
  start_first-everywhere (j ∷ waiting) s e =
      omega (arith, count_p-append p s.running (j ∷ []), ap (count_p p) e)

  acquire-everywhere : (s : Records) → everywhere (acquire s) ≡ everywhere s
  unfolding acquire default_record_concurrency
  acquire-everywhere s = elim (Bool-cases (ltb (length s.running) 64)) [
    | inl free ↦ rw free (start_first-everywhere s.waiting s refl)
    | inr full ↦ rw full refl
  ]

  -- What is taken out and the rest hold what there was.
  abbrev Holds : List Job → Option (Job × List Job) → Type 0
  Holds jobs none = Unit
  Holds jobs (some (j, rest)) =
      (count_p p jobs ≡ count_p p (j ∷ []) + count_p p rest) × (length jobs ≡ suc (length rest))

  take_out-Holds : (n : ℕ) (jobs : List Job) → Holds jobs (take_out n jobs)
  unfolding take_out count_p
  take_out-Holds n [] = tt
  take_out-Holds zero (j ∷ jobs) = (omega arith, refl)
  take_out-Holds (suc n) (j ∷ jobs) = go (take_out n jobs) (take_out-Holds n jobs)
    where
      go :
          (o : Option (Job × List Job))
          → Holds jobs o
          → Holds (j ∷ jobs) (elim o [ none ↦ none | some (k, rest) ↦ some (k, j ∷ rest) ])
      go none h = tt
      go (some (k, rest)) (same, longer) = (omega (arith, same), omega (arith, longer))

  end_one-everywhere :
      (e : Ending) (o : Option (Job × List Job)) (s : Records)
      → Holds s.running o
      → everywhere (end_one e o s) ≡ everywhere s
  unfolding end_one count_p
  end_one-everywhere e none s h = refl
  end_one-everywhere e (some (j, rest)) s (same, longer) = omega (arith, same, ended-append s.ended)
    where
      ended-append :
          (ended : List (Job × Ending))
          → count_p p (map (λ (e : Job × Ending). e.0) (ended ++ (j, e) ∷ []))
            ≡ count_p p (map (λ (e : Job × Ending). e.0) ended) + count_p p (j ∷ [])
      ended-append [] = omega arith
      ended-append (x ∷ ended) = omega (arith, ended-append ended)

-- At most as many run as there are places.
abbrev IsBounded : Records → Type 0
IsBounded s = length s.running ≤ 64

start_first-IsBounded :
    (waiting : List Job) (s : Records) → length s.running < 64 → IsBounded (start_first waiting s)
unfolding start_first
start_first-IsBounded [] s h = omega (arith, h)
start_first-IsBounded (j ∷ waiting) s h = omega (arith, h, length-append s.running (j ∷ []))

acquire-IsBounded : (s : Records) → IsBounded s → IsBounded (acquire s)
unfolding acquire default_record_concurrency
acquire-IsBounded s h = elim (Bool-cases (ltb (length s.running) 64)) [
  | inl free ↦ rw free (start_first-IsBounded s.waiting s (ltb→lt (length s.running) 64 free))
  | inr full ↦ rw full h
]

end_one-IsBounded :
    (e : Ending) (o : Option (Job × List Job)) (s : Records)
    → Holds (λ j. true) s.running o
    → IsBounded s
    → IsBounded (end_one e o s)
unfolding end_one
end_one-IsBounded e none s h bounded = bounded
end_one-IsBounded e (some (j, rest)) s (same, longer) bounded = omega (arith, longer, bounded)

submit_all-running : (jobs : List Job) (s : Records) → (submit_all jobs s).running ≡ s.running
unfolding submit_all submit_record
submit_all-running [] s = refl
submit_all-running (j ∷ jobs) s =
    submit_all-running jobs (record s { waiting = s.waiting ++ j ∷ [] })

module _ {Address : Type 0} (services : ℕ → Services Address) where
  -- A history of requests, each with the services as they answer it, and of records that get a place
  -- and that end; with the records that the requests submitted, the latest ones first.
  pub data Reach : List Job → Records → Type 0 where
    fresh : Reach [] new_records
    handled :
        {jobs : List Job} {s : Records} (n : ℕ) (r : Request)
        → Reach jobs s
        → Reach (jobs_of (wrap (services n) r) ++ jobs) (handle_request (services n) r s)
    acquired : {jobs : List Job} {s : Records} → Reach jobs s → Reach jobs (acquire s)
    released :
        {jobs : List Job} {s : Records} (n : ℕ) (e : Ending)
        → Reach jobs s
        → Reach jobs (release n e s)

  Reach-everywhere :
      {jobs : List Job} {s : Records} (p : Job → Bool)
      → Reach jobs s
      → count_p p jobs ≡ everywhere p s
  unfolding new_records handle_request release count_p
  Reach-everywhere p fresh = refl
  Reach-everywhere p (handled {jobs = jobs} {s = s} n r reach) =
      let submitted = jobs_of (wrap (services n) r) in
      omega (
        arith,
        Reach-everywhere p reach,
        count_p-append p submitted jobs,
        submit_all-everywhere p submitted s,
      )
  Reach-everywhere p (acquired {s = s} reach) =
      omega (arith, Reach-everywhere p reach, acquire-everywhere p s)
  Reach-everywhere p (released {s = s} n e reach) = omega (
    arith,
    Reach-everywhere p reach,
    end_one-everywhere p e (take_out n s.running) s (take_out-Holds p n s.running),
  )

  Reach-IsBounded : {jobs : List Job} {s : Records} → Reach jobs s → IsBounded s
  unfolding new_records handle_request release
  Reach-IsBounded fresh = omega arith
  Reach-IsBounded (handled {s = s} n r reach) =
      rw (submit_all-running (jobs_of (wrap (services n) r)) s) (Reach-IsBounded reach)
  Reach-IsBounded (acquired {s = s} reach) = acquire-IsBounded s (Reach-IsBounded reach)
  Reach-IsBounded (released {s = s} n e reach) =
      end_one-IsBounded e (take_out n s.running) s (take_out-Holds (λ j. true) n s.running)
        (Reach-IsBounded reach)

  -- However requests, the starts of records and their ends interleave, every record that a request
  -- submitted waits, runs or has ended, as often as it was submitted, and at most 64 run.
  pub Reach-Conserved :
      (jobs : List Job) (s : Records)
      → Reach jobs s
      → ((p : Job → Bool)
          → count_p p jobs ≡ count_p p s.waiting + count_p p s.running + count_p p (ended_jobs s))
        × (length s.running ≤ 64)
  Reach-Conserved jobs s reach = (λ p. Reach-everywhere p reach, Reach-IsBounded reach)
