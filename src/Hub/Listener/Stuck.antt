-- ===== src/Hub/Listener/Stuck.antt =====
-- A connection after a timeout: events.go. The websocket library documents that an error of a read is
-- permanent: a later read of the connection returns it again, or panics where there are too many.
use shinzo_host_client.Prelude.{ℕ, zero, suc, ◌≡◌, ◌⊎◌, inl, inr, refl, Bool, true, false}
use shinzo_host_client.Hub.Listener.{
  ReadAnswer, read_failed, read_panics, Session, Running, live, trying, ended, Listener, Feed,
  handle_read_error, recover_panic, after_read, process_next_message, next_round, event_loop,
}

abbrev pub IsRepeated : Bool → ReadAnswer → Type 0
IsRepeated is_timeout answer = (answer ≡ read_failed is_timeout) ⊎ (answer ≡ read_panics)

module _ {Conn Database : Type 0} (feed : Feed Conn Database) where
  open feed use {read, is_done_before, is_done_on_error}

  abbrev pub IsPermanent : Type 0
  IsPermanent =
      (conn : Conn) (n : ℕ) (is_timeout : Bool)
      → read conn n ≡ read_failed is_timeout
      → IsRepeated is_timeout (read conn (suc n))

  -- The loop reads from this connection, whose next read times out or panics, or a read of the
  -- connection has panicked.
  abbrev pub RunningStuck : Conn → Running Conn → Type 0
  RunningStuck conn (live s) = (s.conn ≡ conn) × IsRepeated true (read conn s.reads)
  RunningStuck conn (trying backoff) = ⊥
  RunningStuck conn ended = (n : ℕ) × (read conn n ≡ read_panics)

  -- Nothing more has been sent, and there was no wait to reconnect.
  pub record IsStuck (conn : Conn) (before l : Listener Conn) : Type 0 where
    pub running : RunningStuck conn l.running
    pub sent : l.sent ≡ before.sent
    pub waits : l.waits ≡ before.waits

  next_round-IsStuck :
      (conn : Conn) (before l : Listener Conn) (round : ℕ) (running : Running Conn)
      → IsPermanent
      → is_done_before round ≡ false
      → is_done_on_error round ≡ false
      → RunningStuck conn running
      → IsStuck conn before l
      → IsStuck conn before (next_round feed round running l)
  unfolding next_round process_next_message after_read handle_read_error recover_panic
  next_round-IsStuck conn before l round (live s) permanent running_on going_on
        (same, inl times_out) stuck =
      rw running_on (
        rw same (
          rw times_out (
            rw going_on (record {
              running = (refl, permanent conn s.reads true times_out);
              sent = stuck.sent;
              waits = stuck.waits;
            }))))
  next_round-IsStuck conn before l round (live s) permanent running_on going_on (same, inr panics)
        stuck =
      rw running_on (
        rw same (
          rw panics
            (record { running = (s.reads, panics); sent = stuck.sent; waits = stuck.waits })))
  next_round-IsStuck conn before l round (trying backoff) permanent running_on going_on r stuck =
      stuck
  next_round-IsStuck conn before l round ended permanent running_on going_on r stuck = stuck

  event_loop-keeps :
      (conn : Conn) (before l : Listener Conn) (rounds round : ℕ)
      → IsPermanent
      → ((r : ℕ) → is_done_before r ≡ false)
      → ((r : ℕ) → is_done_on_error r ≡ false)
      → IsStuck conn before l
      → IsStuck conn before (event_loop feed rounds round l)
  unfolding event_loop
  event_loop-keeps conn before l zero round permanent before_on error_on stuck = stuck
  event_loop-keeps conn before l (suc rounds) round permanent before_on error_on stuck =
      event_loop-keeps conn before (next_round feed round l.running l) rounds (suc round) permanent
        before_on error_on
        (next_round-IsStuck conn before l round l.running permanent (before_on round)
          (error_on round) stuck.running stuck)

  -- If a read of a connection that follows a failed one fails in the same way or panics, and the
  -- context is not done, then a loop whose next read times out has, after any number of rounds, sent
  -- nothing more and not waited to reconnect, and it reads on from the same connection, where the next
  -- read times out or panics, or a read of that connection has panicked.
  pub event_loop-IsStuck :
      (l : Listener Conn) (s : Session Conn) (rounds round : ℕ)
      → IsPermanent
      → ((r : ℕ) → is_done_before r ≡ false)
      → ((r : ℕ) → is_done_on_error r ≡ false)
      → l.running ≡ live s
      → read s.conn s.reads ≡ read_failed true
      → IsStuck s.conn l (event_loop feed rounds round l)
  event_loop-IsStuck l s rounds round permanent before_on error_on runs times_out =
      event_loop-keeps s.conn l l rounds round permanent before_on error_on
        (record { running = rw runs (refl, inl times_out); sent = refl; waits = refl })
