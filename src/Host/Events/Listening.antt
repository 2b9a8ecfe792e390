-- ===== src/Host/Events/Listening.antt =====
-- The listener of attestationHandler.go and its workers: which updates a worker may still see.
use shinzo_host_client.Prelude.{
  ℕ, ◌≤◌, ◌≡◌, ◌∙◌, refl, sym, ap, String, ◌&&◌, Option, none, some, List, [], ◌∷◌, ◌==◌, string_eq,
  if◌then◌else◌, drop, lookup, Map, arith,
}
use shinzo_host_client.Host.Events.{Update, Listener, handle_update, handle_known, relayed}
use shinzo_host_client.Host.Events.Queued.{
  Step, sent, taken, queue_after, stream, gone, queue_after-stream,
}

-- What happens: an update at a time, or a worker takes a document.
pub data Happening : Type 0 where
  arrived : ℕ → Update → Happening
  worked : Happening

-- The listener after a history, the newest first.
unfoldable pub listener_after : Listener → List Happening → Listener
listener_after start [] = start
listener_after start (arrived now u ∷ history) = handle_update now u (listener_after start history)
listener_after start (worked ∷ history) =
    let l = listener_after start history in record l { doc_queue = drop 1 l.doc_queue }

-- The step of an update of the collection with this name: only a block signature that a peer has
-- sent is put into the queue.
unfoldable pub step_of : Option String → Update → List Step → List Step
step_of none u steps = steps
step_of (some name) u steps =
    if u.is_relay && name == "Ethereum__Mainnet__BlockSignature"
    then sent (record { doc_id = u.doc_id; collection_name = name }) ∷ steps
    else steps

unfoldable pub steps_of : Map String String → List Happening → List Step
unfolding step_of
steps_of names [] = []
steps_of names (arrived now u ∷ history) =
    step_of (lookup u.collection_id names) u (steps_of names history)
steps_of names (worked ∷ history) = taken ∷ steps_of names history

handle_known-fields :
    (now : ℕ) (u : Update) (o : Option String) (l : Listener)
    → ((handle_known now u o l).capacity ≡ l.capacity)
      × ((handle_known now u o l).collection_names ≡ l.collection_names)
unfolding handle_known relayed
handle_known-fields now u none l = (refl, refl)
handle_known-fields now u (some name) l = ground arith

handle_known-queue :
    (now : ℕ) (u : Update) (o : Option String) (l : Listener) (steps : List Step)
    → l.doc_queue ≡ queue_after l.capacity steps
    → (handle_known now u o l).doc_queue ≡ queue_after l.capacity (step_of o u steps)
unfolding handle_known relayed step_of queue_after
handle_known-queue now u none l steps e = e
handle_known-queue now u (some name) l steps e = ground (arith, e)

module _ (start : Listener) where
  listener_after-fields :
      (history : List Happening)
      → ((listener_after start history).capacity ≡ start.capacity)
        × ((listener_after start history).collection_names ≡ start.collection_names)
  unfolding listener_after handle_update
  listener_after-fields [] = (refl, refl)
  listener_after-fields (arrived now u ∷ history) =
      let (c, n) =
        handle_known-fields now u
          (lookup u.collection_id (listener_after start history).collection_names)
          (listener_after start history) in
      let (c', n') = listener_after-fields history in (c ∙ c', n ∙ n')
  listener_after-fields (worked ∷ history) = listener_after-fields history

  listener_after-queue :
      (history : List Happening)
      → start.doc_queue ≡ []
      → (listener_after start history).doc_queue
        ≡ queue_after start.capacity (steps_of start.collection_names history)
  unfolding listener_after steps_of queue_after handle_update
  listener_after-queue [] e = e
  listener_after-queue (arrived now u ∷ history) e =
      let l = listener_after start history in
      let (c, n) = listener_after-fields history in
      handle_known-queue now u (lookup u.collection_id l.collection_names) l
        (steps_of start.collection_names history)
        (listener_after-queue history e
          ∙ ap (λ k. queue_after k (steps_of start.collection_names history)) (sym c))
      ∙ ap
          (λ k. queue_after k (
            step_of (lookup u.collection_id l.collection_names) u
              (steps_of start.collection_names history)))
          c
      ∙ ap
          (λ names.
            queue_after start.capacity
              (step_of (lookup u.collection_id names) u (steps_of start.collection_names history)))
          n
  listener_after-queue (worked ∷ history) e = ap (drop 1) (listener_after-queue history e)

  -- A listener starts with an empty queue that holds at least one document. After any updates and any
  -- documents taken by workers, its queue is the stream of the block signatures that peers have sent,
  -- in their order, less the oldest of them: those that were taken, or beyond what the queue holds.
  pub listener_after-stream :
      (history : List Happening)
      → start.doc_queue ≡ []
      → 1 ≤ start.capacity
      → (listener_after start history).doc_queue
        ≡ drop
            (gone start.capacity (steps_of start.collection_names history))
            (stream (steps_of start.collection_names history))
  listener_after-stream history e c =
      listener_after-queue history e
      ∙ queue_after-stream start.capacity (steps_of start.collection_names history) c
