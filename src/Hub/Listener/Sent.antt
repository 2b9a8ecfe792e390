-- ===== src/Hub/Listener/Sent.antt =====
-- The events sent: events.go.
use shinzo_host_client.Prelude.{
  ℕ, zero, suc, Bool, true, false, List, All, All-append, inl, inr, Bool-cases,
}
use shinzo_host_client.Prelude.Bytes.{bytes_eq}
use shinzo_host_client.Hub.Events.{ViewRegisteredEvent}
use shinzo_host_client.Hub.Listener.{
  ReadAnswer, message, read_failed, read_panics, Reconnection, connected, Session, Running, live,
  trying, ended, Listener, Feed, resumed, reconnect, handle_read_error, settled, dispatched,
  recover_panic, after_read, process_next_message, next_round, event_loop, started,
}
use shinzo_host_client.Hub.Dispatch.Hydrated.{IsHydrated, AllHydrated, dispatch_events-AllHydrated}

module _ {Conn Database : Type 0} (feed : Feed Conn Database) where
  open feed use {is_done_before, is_done_on_error, now, lcd, taken, dials}

  abbrev pub SentHydrated : Listener Conn → Type 0
  SentHydrated l = All IsHydrated l.sent

  resumed-SentHydrated :
      (t : ℕ) (sent : List ViewRegisteredEvent) (waits : List ℕ) (r : List ℕ × Reconnection Conn)
      → All IsHydrated sent
      → SentHydrated (resumed feed t sent waits r)
  unfolding resumed
  resumed-SentHydrated t sent waits (more, Reconnection.retrying backoff) h = h
  resumed-SentHydrated t sent waits (more, Reconnection.cancelled backoff) h = h
  resumed-SentHydrated t sent waits (more, connected conn backoff) h = h

  handle_read_error-SentHydrated :
      (round : ℕ) (is_timeout : Bool) (s : Session Conn) (sent : List ViewRegisteredEvent)
      (waits : List ℕ)
      → All IsHydrated sent
      → SentHydrated (handle_read_error feed round is_timeout s sent waits)
  unfolding handle_read_error
  handle_read_error-SentHydrated round true s sent waits h =
      elim (Bool-cases (is_done_on_error round)) [ inl stops ↦ rw stops h | inr goes ↦ rw goes h ]
  handle_read_error-SentHydrated round false s sent waits h =
      elim (Bool-cases (is_done_on_error round)) [
        | inl stops ↦ rw stops h
        | inr goes ↦
            rw goes (
              resumed-SentHydrated (now round) sent waits (reconnect feed (dials round) s.backoff)
                h)
      ]

  dispatched-SentHydrated :
      (s : Session Conn) (sent : List ViewRegisteredEvent) (waits : List ℕ)
      (more : List ViewRegisteredEvent × Bool)
      → All IsHydrated sent
      → AllHydrated more
      → SentHydrated (dispatched feed s sent waits more)
  unfolding dispatched
  dispatched-SentHydrated s sent waits (more, true) h k = All-append IsHydrated sent more h k
  dispatched-SentHydrated s sent waits (more, false) h k = All-append IsHydrated sent more h k

  after_read-SentHydrated :
      (round : ℕ) (answer : ReadAnswer) (s : Session Conn) (sent : List ViewRegisteredEvent)
      (waits : List ℕ)
      → All IsHydrated sent
      → SentHydrated (after_read feed round answer s sent waits)
  unfolding after_read recover_panic
  after_read-SentHydrated round (read_failed is_timeout) s sent waits h =
      handle_read_error-SentHydrated round is_timeout s sent waits h
  after_read-SentHydrated round read_panics s sent waits h = h
  after_read-SentHydrated round (message msg) s sent waits h =
      dispatched-SentHydrated (settled feed (now round) s) sent waits _ h
        (dispatch_events-AllHydrated (lcd round) msg (taken round))

  next_round-SentHydrated :
      (round : ℕ) (running : Running Conn) (l : Listener Conn)
      → SentHydrated l
      → SentHydrated (next_round feed round running l)
  unfolding next_round process_next_message
  next_round-SentHydrated round (live s) l h = elim (Bool-cases (is_done_before round)) [
    | inl stops ↦ rw stops h
    | inr goes ↦ rw goes (
        after_read-SentHydrated round (feed.read s.conn s.reads) (record s { reads = suc s.reads })
          l.sent l.waits h)
  ]
  next_round-SentHydrated round (trying backoff) l h = h
  next_round-SentHydrated round ended l h = h

  event_loop-keeps :
      (rounds round : ℕ) (l : Listener Conn)
      → SentHydrated l
      → SentHydrated (event_loop feed rounds round l)
  unfolding event_loop
  event_loop-keeps zero round l h = h
  event_loop-keeps (suc rounds) round l h =
      event_loop-keeps rounds (suc round) (next_round feed round l.running l)
        (next_round-SentHydrated round l.running l h)

  -- Whatever a loop that starts on a connection meets, every event that it has sent carries a view with
  -- a name, a query and an SDL, under the event's own contract address, which is not empty.
  pub event_loop-SentHydrated :
      (conn : Conn) (t rounds : ℕ) → SentHydrated (event_loop feed rounds 0 (started feed conn t))
  unfolding started
  event_loop-SentHydrated conn t rounds = event_loop-keeps rounds 0 (started feed conn t) tt
