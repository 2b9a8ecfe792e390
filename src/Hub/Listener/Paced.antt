-- ===== src/Hub/Listener/Paced.antt =====
-- The backoff of the event loop: events.go.
use shinzo_host_client.Prelude.{
  ℕ, zero, suc, ◌/◌, ◌≤◌, ◌<◌, Bool, true, false, List, [], ◌∷◌, if◌then◌else◌, All, All-append,
  arith, inl, inr, Bool-cases,
}
use shinzo_host_client.Hub.Events.{ViewRegisteredEvent}
use shinzo_host_client.Hub.Listener.{
  ReadAnswer, message, read_failed, read_panics, Dial, dial_failed, dialed, Reconnection, connected,
  Session, Running, live, trying, ended, Listener, Feed, second, max_backoff, jittered, doubled,
  wait_of, cons_wait, reconnect, resumed, handle_read_error, settled, dispatched, recover_panic,
  after_read, process_next_message, next_round, event_loop, started,
}

-- From one second to sixty.
abbrev pub IsBackoff : ℕ → Type 0
IsBackoff backoff = (1000000000 ≤ backoff) × (backoff ≤ 60000000000)

-- Three quarters of a second at least, and less than seventy-five seconds.
abbrev pub IsWait : ℕ → Type 0
IsWait wait = (750000000 ≤ wait) × (wait < 75000000000)

abbrev ReconnectionPaced : {Conn : Type 0} → Reconnection Conn → Type 0
ReconnectionPaced (Reconnection.retrying backoff) = IsBackoff backoff
ReconnectionPaced (Reconnection.cancelled backoff) = IsBackoff backoff
ReconnectionPaced (connected conn backoff) = IsBackoff backoff

abbrev pub RunningPaced : {Conn : Type 0} → Running Conn → Type 0
RunningPaced (live s) = IsBackoff s.backoff
RunningPaced (trying backoff) = IsBackoff backoff
RunningPaced ended = Unit

abbrev pub IsPaced : {Conn : Type 0} → Listener Conn → Type 0
IsPaced l = RunningPaced l.running × All IsWait l.waits

doubled-IsBackoff : (backoff : ℕ) → IsBackoff backoff → IsBackoff (doubled backoff)
unfolding doubled max_backoff second
doubled-IsBackoff backoff (low, high) = (ground (arith, low, high), ground (arith, low, high))

module _ {Conn Database : Type 0} (feed : Feed Conn Database) where
  open feed use {int64_n, now, dials, is_done_on_error, is_done_before}

  -- A draw below a bound that is positive is below it.
  abbrev pub IsDraw : Type 0
  IsDraw = (draw bound : ℕ) → 0 < bound → int64_n draw bound < bound

  wait_of-IsWait :
      (draw backoff : ℕ) → IsDraw → IsBackoff backoff → IsWait (wait_of feed draw backoff)
  unfolding wait_of jittered
  wait_of-IsWait draw backoff drawn (low, high) =
      let below = drawn draw (backoff / 2) (omega (arith, low)) in
      (omega (arith, low, high, below), omega (arith, low, high, below))

  cons_wait-paced :
      (wait : ℕ) (r : List ℕ × Reconnection Conn)
      → IsWait wait
      → All IsWait r.0 × ReconnectionPaced r.1
      → All IsWait (cons_wait feed wait r).0 × ReconnectionPaced (cons_wait feed wait r).1
  unfolding cons_wait
  cons_wait-paced wait (waits, r) w (ws, p) = ((w, ws), p)

  reconnect-paced :
      (dials : List (Dial Conn)) (backoff : ℕ)
      → IsDraw
      → IsBackoff backoff
      → All IsWait (reconnect feed dials backoff).0
        × ReconnectionPaced (reconnect feed dials backoff).1
  unfolding reconnect
  reconnect-paced [] backoff drawn b = (tt, b)
  reconnect-paced (Dial.cancelled draw ∷ later) backoff drawn b =
      ((wait_of-IsWait draw backoff drawn b, tt), b)
  reconnect-paced (dial_failed draw ∷ later) backoff drawn b =
      cons_wait-paced _ _ (wait_of-IsWait draw backoff drawn b)
        (reconnect-paced later (doubled backoff) drawn (doubled-IsBackoff backoff b))
  reconnect-paced (dialed draw conn ∷ later) backoff drawn b =
      ((wait_of-IsWait draw backoff drawn b, tt), b)

  resumed-IsPaced :
      (t : ℕ) (sent : List ViewRegisteredEvent) (waits : List ℕ) (r : List ℕ × Reconnection Conn)
      → All IsWait waits
      → All IsWait r.0 × ReconnectionPaced r.1
      → IsPaced (resumed feed t sent waits r)
  unfolding resumed
  resumed-IsPaced t sent waits (more, Reconnection.retrying backoff) ws (p, b) =
      (b, All-append IsWait waits more ws p)
  resumed-IsPaced t sent waits (more, Reconnection.cancelled backoff) ws (p, b) =
      (tt, All-append IsWait waits more ws p)
  resumed-IsPaced t sent waits (more, connected conn backoff) ws (p, b) =
      (b, All-append IsWait waits more ws p)

  handle_read_error-IsPaced :
      (round : ℕ) (is_timeout : Bool) (s : Session Conn) (sent : List ViewRegisteredEvent)
      (waits : List ℕ)
      → IsDraw
      → IsBackoff s.backoff
      → All IsWait waits
      → IsPaced (handle_read_error feed round is_timeout s sent waits)
  unfolding handle_read_error
  handle_read_error-IsPaced round is_timeout s sent waits drawn b ws =
      elim (Bool-cases (is_done_on_error round)) [
        | inl stops ↦ rw stops (tt, ws)
        | inr goes ↦ rw goes (by_kind is_timeout)
      ]
    where
      by_kind :
          (timeout : Bool)
          → IsPaced (
              if timeout
              then record {
                running = live (record s { connected_at = now round });
                sent = sent;
                waits = waits;
              }
              else resumed feed (now round) sent waits (reconnect feed (dials round) s.backoff))
      by_kind true = (b, ws)
      by_kind false =
          resumed-IsPaced (now round) sent waits (reconnect feed (dials round) s.backoff) ws
            (reconnect-paced (dials round) s.backoff drawn b)

  settled-IsBackoff :
      (t : ℕ) (s : Session Conn) → IsBackoff s.backoff → IsBackoff (settled feed t s).backoff
  unfolding settled second
  settled-IsBackoff t s (low, high) = (ground (arith, low, high), ground (arith, low, high))

  dispatched-IsPaced :
      (s : Session Conn) (sent : List ViewRegisteredEvent) (waits : List ℕ)
      (more : List ViewRegisteredEvent × Bool)
      → IsBackoff s.backoff
      → All IsWait waits
      → IsPaced (dispatched feed s sent waits more)
  unfolding dispatched
  dispatched-IsPaced s sent waits (more, true) b ws = (tt, ws)
  dispatched-IsPaced s sent waits (more, false) b ws = (b, ws)

  after_read-IsPaced :
      (round : ℕ) (answer : ReadAnswer) (s : Session Conn) (sent : List ViewRegisteredEvent)
      (waits : List ℕ)
      → IsDraw
      → IsBackoff s.backoff
      → All IsWait waits
      → IsPaced (after_read feed round answer s sent waits)
  unfolding after_read recover_panic
  after_read-IsPaced round (read_failed is_timeout) s sent waits drawn b ws =
      handle_read_error-IsPaced round is_timeout s sent waits drawn b ws
  after_read-IsPaced round read_panics s sent waits drawn b ws = (tt, ws)
  after_read-IsPaced round (message msg) s sent waits drawn b ws =
      dispatched-IsPaced (settled feed (now round) s) sent waits _
        (settled-IsBackoff (now round) s b) ws

  next_round-IsPaced :
      (round : ℕ) (running : Running Conn) (l : Listener Conn)
      → IsDraw
      → RunningPaced running
      → IsPaced l
      → IsPaced (next_round feed round running l)
  unfolding next_round process_next_message
  next_round-IsPaced round (live s) l drawn b (p, ws) = elim (Bool-cases (is_done_before round)) [
    | inl stops ↦ rw stops (tt, ws)
    | inr goes ↦ rw goes (
        after_read-IsPaced round (feed.read s.conn s.reads) (record s { reads = suc s.reads })
          l.sent l.waits drawn b ws)
  ]
  next_round-IsPaced round (trying backoff) l drawn b p = p
  next_round-IsPaced round ended l drawn b p = p

  event_loop-keeps :
      (rounds round : ℕ) (l : Listener Conn)
      → IsDraw
      → IsPaced l
      → IsPaced (event_loop feed rounds round l)
  unfolding event_loop
  event_loop-keeps zero round l drawn p = p
  event_loop-keeps (suc rounds) round l drawn p =
      event_loop-keeps rounds (suc round) (next_round feed round l.running l) drawn
        (next_round-IsPaced round l.running l drawn p.0 p)

  -- If the random draws are below their bounds, then after any number of rounds of a loop that starts
  -- on a connection, the backoff is from one second to sixty, and every wait before a dial was of
  -- three quarters of a second at least and less than seventy-five seconds.
  pub event_loop-IsPaced :
      (conn : Conn) (t rounds : ℕ)
      → IsDraw
      → IsPaced (event_loop feed rounds 0 (started feed conn t))
  unfolding started second
  event_loop-IsPaced conn t rounds drawn =
      event_loop-keeps rounds 0 (started feed conn t) drawn ((omega arith, omega arith), tt)
