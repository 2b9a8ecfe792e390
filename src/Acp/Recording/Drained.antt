-- ===== src/Acp/Recording/Drained.antt =====
-- All records come to an end: middleware.go.
use shinzo_host_client.Prelude.{
  ℕ, suc, ◌+◌, ◌≡◌, ◌∙◌, refl, sym, ap, Bool, true, false, List, [], ◌∷◌, ◌++◌, map, ltb, length,
  length-append, count_p, arith, inl, inr, Bool-cases,
}
use mathlib.Core.List.{append-nil, append_assoc, map-append}
use shinzo_host_client.Acp.Gate.{Services}
use shinzo_host_client.Acp.Recording.{
  Job, Ending, Records, default_record_concurrency, start_first, acquire, take_out, end_one,
  release, drains, is_empty,
}
use shinzo_host_client.Acp.Recording.Conserved.{
  Reach, acquired, released, Reach-Conserved, ended_jobs,
}

-- The records that have not ended.
open_count : Records → ℕ
open_count s = length s.waiting + length s.running

-- Starts, and ends in these ways, from one state to another.
pub data Steps : List Ending → Records → Records → Type 0 where
  still : {s : Records} → Steps [] s s
  starts : {ends : List Ending} {s t : Records} → Steps ends (acquire s) t → Steps ends s t
  ends_one :
      {ends : List Ending} {s t : Records} (n : ℕ) (e : Ending)
      → Steps ends (release n e s) t
      → Steps (e ∷ ends) s t

-- The ways in which records have ended, the first one first.
abbrev pub endings : Records → List Ending
endings s = map (λ (e : Job × Ending). e.1) s.ended

-- Each round starts a record, if it can, and ends one.
work : List Ending → Records → Records
work [] s = s
work (e ∷ ends) s = work ends (release 0 e (acquire s))

work-Steps : (ends : List Ending) (s : Records) → Steps ends s (work ends s)
unfolding work
work-Steps [] s = still
work-Steps (e ∷ ends) s = starts (ends_one 0 e (work-Steps ends (release 0 e (acquire s))))

start_first-open :
    (waiting : List Job) (s : Records)
    → s.waiting ≡ waiting
    → open_count (start_first waiting s) ≡ open_count s
unfolding open_count start_first
start_first-open [] s e = refl
start_first-open (j ∷ waiting) s e = omega (arith, length-append s.running (j ∷ []), ap length e)

acquire-open : (s : Records) → open_count (acquire s) ≡ open_count s
unfolding acquire default_record_concurrency
acquire-open s = elim (Bool-cases (ltb (length s.running) 64)) [
  | inl free ↦ rw free (start_first-open s.waiting s refl)
  | inr full ↦ rw full refl
]

-- After an acquisition nothing waits alone.
IsBusy : Records → Type 0
IsBusy s = (length s.running ≡ 0) → length s.waiting ≡ 0

acquire-IsBusy : (s : Records) → IsBusy (acquire s)
unfolding acquire IsBusy default_record_concurrency start_first
acquire-IsBusy s = elim (Bool-cases (ltb (length s.running) 64)) [
  | inl free ↦ rw free (started s.waiting refl)
  | inr full ↦ rw full (λ idle. absurd (ground (arith, full, idle)))
]
  where
    started : (waiting : List Job) → s.waiting ≡ waiting → IsBusy (start_first waiting s)
    started [] e = λ idle. ap length e
    started (j ∷ waiting) e = λ idle. absurd (omega (arith, idle, length-append s.running (j ∷ [])))

start_first-ended : (waiting : List Job) (s : Records) → (start_first waiting s).ended ≡ s.ended
unfolding start_first
start_first-ended [] s = refl
start_first-ended (j ∷ waiting) s = refl

acquire-ended : (s : Records) → (acquire s).ended ≡ s.ended
unfolding acquire default_record_concurrency
acquire-ended s = elim (Bool-cases (ltb (length s.running) 64)) [
  | inl free ↦ rw free (start_first-ended s.waiting s)
  | inr full ↦ rw full refl
]

-- Where nothing waits alone, an end ends one of the records that are open.
release-ends :
    (e : Ending) (s : Records) (n : ℕ)
    → IsBusy s
    → open_count s ≡ suc n
    → (open_count (release 0 e s) ≡ n) × (endings (release 0 e s) ≡ endings s ++ e ∷ [])
unfolding release open_count IsBusy
release-ends e s n busy h = go s.running refl
  where
    go :
        (running : List Job)
        → s.running ≡ running
        → (length (end_one e (take_out 0 running) s).waiting
              + length (end_one e (take_out 0 running) s).running
            ≡ n)
          × (endings (end_one e (take_out 0 running) s) ≡ endings s ++ e ∷ [])
    go [] idle = absurd (omega (arith, h, busy (ap length idle), ap length idle))
    go (j ∷ running) runs =
        unfold end_one take_out in
        (
          omega (arith, h, ap length runs),
          map-append (λ (x : Job × Ending). x.1) s.ended ((j, e) ∷ []),
        )

work-open :
    (ends : List Ending) (s : Records)
    → open_count s ≡ length ends
    → (open_count (work ends s) ≡ 0) × (endings (work ends s) ≡ endings s ++ ends)
unfolding work
work-open [] s h = (omega (arith, h), sym (append-nil (endings s)))
work-open (e ∷ ends) s h =
    let (fewer, more) =
      release-ends e (acquire s) (length ends) (acquire-IsBusy s)
        (omega (arith, h, acquire-open s)) in
    let (none_open, all) = work-open ends (release 0 e (acquire s)) fewer in
    (
      none_open,
      all
          ∙ ap (λ l. l ++ ends)
              (more ∙ ap (λ l. map (λ (x : Job × Ending). x.1) l ++ e ∷ []) (acquire-ended s))
          ∙ append_assoc (endings s) (e ∷ []) ends,
    )

empty_of : (jobs : List Job) → length jobs ≡ 0 → jobs ≡ []
empty_of [] h = refl
empty_of (j ∷ jobs) h = absurd (omega (arith, h))

by_counts :
    (jobs : List Job) (p : Job → Bool) (t : Records)
    → t.running ≡ []
    → t.waiting ≡ []
    → count_p p jobs ≡ count_p p t.waiting + count_p p t.running + count_p p (ended_jobs t)
    → count_p p jobs ≡ count_p p (ended_jobs t)
unfolding count_p
by_counts jobs p t idle waitless h = omega (arith, h, ap (count_p p) idle, ap (count_p p) waitless)

module _ {Address : Type 0} (services : ℕ → Services Address) where
  Steps-Reach :
      {ends : List Ending} {jobs : List Job} {s t : Records}
      → Steps ends s t
      → Reach services jobs s
      → Reach services jobs t
  Steps-Reach still reach = reach
  Steps-Reach (starts steps) reach = Steps-Reach steps (acquired reach)
  Steps-Reach (ends_one n e steps) reach = Steps-Reach steps (released n e reach)

  -- From any state that requests, starts and ends have led to, and whichever ways are given for the
  -- records that have not ended to end, one for each, starts and ends in these ways alone lead to a
  -- state where `Drain` returns while its context is not done, where the records have ended in these
  -- ways behind those that had, and every record submitted has ended, as often as it was submitted.
  pub Reach-drains :
      (jobs : List Job) (s : Records) (ends : List Ending)
      → Reach services jobs s
      → length s.waiting + length s.running ≡ length ends
      → (t : Records) × Steps ends s t
        × (drains false t ≡ true)
        × (endings t ≡ endings s ++ ends)
        × ((p : Job → Bool) → count_p p jobs ≡ count_p p (ended_jobs t))
  unfolding drains is_empty
  Reach-drains jobs s ends reach h =
      let t = work ends s in
      let steps = work-Steps ends s in
      let (none_open, in_turn) = work-open ends s (unfold open_count in h) in
      let idle = empty_of t.running (unfold open_count in omega (arith, none_open)) in
      let waitless = empty_of t.waiting (unfold open_count in omega (arith, none_open)) in
      (
        t,
        steps,
        rw idle refl,
        in_turn,
        λ p.
            by_counts jobs p t idle waitless
              ((Reach-Conserved services jobs t (Steps-Reach steps reach)).0 p),
      )
