-- ===== src/Host/Events/Queued.antt =====
-- The document queue of attestationHandler.go against the whole stream of the documents put into it.
use Prim.Native.Nat.add
use shinzo_host_client.Prelude.{
  ℕ, zero, suc, ◌+◌, ◌-◌, ◌≤◌, ◌<◌, ◌≡◌, ◌∙◌, inl, inr, refl, sym, ap, List, [], ◌∷◌, ◌++◌,
  string_eq, if◌then◌else◌, length, drop, length-drop, length-append, ltb, arith, Bool-cases,
}
use shinzo_host_client.Host.Events.{DocEvent, enqueue_rounds, enqueue_doc}

module _ {A : Type 0} where
  drop-append : (n : ℕ) (xs ys : List A) → n ≤ length xs → drop n (xs ++ ys) ≡ drop n xs ++ ys
  drop-append zero xs ys h = refl
  drop-append (suc n) [] ys h = absurd (ground (arith, h))
  drop-append (suc n) (x ∷ xs) ys h = drop-append n xs ys (ground (arith, h))

  drop_all : (n : ℕ) (xs : List A) → length xs ≤ n → drop n xs ≡ []
  drop_all zero [] h = refl
  drop_all (suc n) [] h = refl
  drop_all zero (x ∷ xs) h = absurd (ground (arith, h))
  drop_all (suc n) (x ∷ xs) h = drop_all n xs (ground (arith, h))

  drop-drop : (m n : ℕ) (xs : List A) → drop m (drop n xs) ≡ drop (n + m) xs
  drop-drop m zero xs = ground arith
  drop-drop m (suc n) [] = drop_all m [] (omega arith) ∙ sym (drop_all (suc n + m) [] (omega arith))
  drop-drop m (suc n) (x ∷ xs) = rw (add.suc n m) (drop-drop m n xs)

enqueue_rounds-drop :
    (rounds capacity : ℕ) (evt : DocEvent) (queue : List DocEvent)
    → length queue < rounds
    → 1 ≤ capacity
    → enqueue_rounds rounds capacity evt queue
      ≡ drop (suc (length queue) - capacity) queue ++ (evt ∷ [])
unfolding enqueue_rounds
enqueue_rounds-drop zero capacity evt queue h c = absurd (omega (arith, h))
enqueue_rounds-drop (suc rounds) capacity evt [] h c =
    let e : 1 - capacity ≡ 0 = omega (arith, c) in rw e (ground (arith, c))
enqueue_rounds-drop (suc rounds) capacity evt (e ∷ queue) h c =
    elim (Bool-cases (ltb (length (e ∷ queue)) capacity)) [
      | inl room ↦
          let none_goes : suc (suc (length queue)) - capacity ≡ 0 = ground (arith, room) in
          rw none_goes (ground (arith, room))
      | inr full ↦
          let one_goes : suc (suc (length queue)) - capacity ≡ suc (suc (length queue) - capacity) =
            ground (arith, full) in
          rw one_goes (
            ground
              (arith, full, enqueue_rounds-drop rounds capacity evt queue (ground (arith, h)) c))
    ]

-- What happens to the queue: a document is put into it, or a worker takes one out.
pub data Step : Type 0 where
  sent : DocEvent → Step
  taken : Step

-- Steps stand with the newest first. The queue after them, where nothing is taken from an empty one.
unfoldable pub queue_after : ℕ → List Step → List DocEvent
unfolding enqueue_doc
queue_after capacity [] = []
queue_after capacity (sent evt ∷ steps) = enqueue_doc capacity evt (queue_after capacity steps)
queue_after capacity (taken ∷ steps) = drop 1 (queue_after capacity steps)

-- All documents put into the queue, the oldest first.
unfoldable pub stream : List Step → List DocEvent
stream [] = []
stream (sent evt ∷ steps) = stream steps ++ (evt ∷ [])
stream (taken ∷ steps) = stream steps

-- How many of them are gone, the oldest first: taken, or beyond what the queue holds.
unfoldable pub gone : ℕ → List Step → ℕ
unfolding stream
gone capacity [] = 0
gone capacity (sent evt ∷ steps) =
    let past = suc (length (stream steps)) - capacity in
    if ltb (gone capacity steps) past then past else gone capacity steps
gone capacity (taken ∷ steps) =
    let before = gone capacity steps in
    if ltb before (length (stream steps)) then suc before else before

gone-stream :
    (capacity : ℕ) (steps : List Step) → 1 ≤ capacity → gone capacity steps ≤ length (stream steps)
unfolding gone stream
gone-stream capacity [] c = omega arith
gone-stream capacity (sent evt ∷ steps) c =
    ground (arith, c, gone-stream capacity steps c, length-append (stream steps) (evt ∷ []))
gone-stream capacity (taken ∷ steps) c = ground (arith, gone-stream capacity steps c)

-- Where the queue holds at least one document: after any steps, it is the stream of all documents put
-- into it, less those that are gone.
pub queue_after-stream :
    (capacity : ℕ) (steps : List Step)
    → 1 ≤ capacity
    → queue_after capacity steps ≡ drop (gone capacity steps) (stream steps)
unfolding queue_after enqueue_doc stream gone
queue_after-stream capacity [] c = refl
queue_after-stream capacity (sent evt ∷ steps) c =
    let rest = queue_after-stream capacity steps c in
    let k = gone capacity steps in
    let sized : length (queue_after capacity steps) ≡ length (stream steps) - k =
      ap length rest ∙ length-drop k (stream steps) in
    let bound = gone-stream capacity steps c in
    enqueue_rounds-drop (suc (length (queue_after capacity steps))) capacity evt
      (queue_after capacity steps) (omega arith) c
    ∙ ap (λ q. q ++ (evt ∷ []))
        (ap (λ q. drop (suc (length (queue_after capacity steps)) - capacity) q) rest
          ∙ drop-drop (suc (length (queue_after capacity steps)) - capacity) k (stream steps))
    ∙ sym (
        drop-append (k + (suc (length (queue_after capacity steps)) - capacity)) (stream steps)
          (evt ∷ []) (omega (arith, sized, bound, c)))
    ∙ ap (λ n. drop n (stream steps ++ (evt ∷ []))) (ground (arith, sized, bound, c))
queue_after-stream capacity (taken ∷ steps) c =
    ap (drop 1) (queue_after-stream capacity steps c)
    ∙ drop-drop 1 (gone capacity steps) (stream steps)
    ∙ settled
  where
    settled :
        drop (gone capacity steps + 1) (stream steps)
        ≡ drop (gone capacity (taken ∷ steps)) (stream steps)
    settled = elim (Bool-cases (ltb (gone capacity steps) (length (stream steps)))) [
      | inl more ↦
          let one : gone capacity steps + 1 ≡ suc (gone capacity steps) = omega arith in
          rw more (ap (λ n. drop n (stream steps)) one)
      | inr end ↦ rw end (
          drop_all (gone capacity steps + 1) (stream steps) (ground (arith, end))
          ∙ sym (drop_all (gone capacity steps) (stream steps) (ground (arith, end))))
    ]
