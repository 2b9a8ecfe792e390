-- ===== src/Hub/Listener.antt =====
-- pkg/shinzohub/events.go: the event loop with its reconnections. Times and delays are in nanoseconds;
-- what the websocket, the random numbers and the clock answer stands in `Feed`.
pub mod Paced
pub mod Sent
pub mod Stuck
use shinzo_host_client.Prelude.{
  ℕ, zero, suc, ◌+◌, ◌-◌, ◌*◌, ◌/◌, String, Bool, true, false, not, ◌&&◌, Option, none, some, List,
  [], ◌∷◌, ◌++◌, ◌==◌, nat_eq, if◌then◌else◌, ltb,
}
use shinzo_host_client.Prelude.Bytes.{bytes_eq}
use shinzo_host_client.Prelude.Results.{Result, ok, err}
use shinzo_host_client.Views.{View}
use shinzo_host_client.Hub.Events.{RpcResponse, ViewRegisteredEvent, extract_shinzo_events}
use shinzo_host_client.Hub.Hydration.{Hydration}
use shinzo_host_client.Hub.Dispatch.{dispatch_events}

-- A message, which is `none` if it does not decode, or an error that is a timeout or not, or a panic.
pub data ReadAnswer : Type 0 where
  message : Option RpcResponse → ReadAnswer
  read_failed : Bool → ReadAnswer
  read_panics : ReadAnswer

-- What meets an attempt to reconnect, and the number of its random draw.
pub data Dial (Conn : Type 0) : Type 0 where
  cancelled dial_failed : ℕ → Dial Conn
  dialed : ℕ → Conn → Dial Conn

-- A reconnection that is still trying, was cancelled, or has a connection; and its backoff.
pub data Reconnection (Conn : Type 0) : Type 0 where
  retrying cancelled : ℕ → Reconnection Conn
  connected : Conn → ℕ → Reconnection Conn

pub record Session (Conn : Type 0) : Type 0 where
  pub conn : Conn
  pub reads : ℕ
  pub connected_at : ℕ
  pub backoff : ℕ

pub data Running (Conn : Type 0) : Type 0 where
  live : Session Conn → Running Conn
  trying : ℕ → Running Conn
  ended : Running Conn

-- The loop, the events sent, the oldest first, and the waits before the dials.
pub record Listener (Conn : Type 0) : Type 0 where
  pub running : Running Conn
  pub sent : List ViewRegisteredEvent
  pub waits : List ℕ

-- What a connection answers to each read, and what the rounds of the loop meet: whether the context is
-- done before one and when a read fails, the time, the gateway for an event, how many events are
-- taken before the context is done, if it is, and the dials of a reconnection.
pub record Feed (Conn Database : Type 0) : Type 0 where
  pub read : Conn → ℕ → ReadAnswer
  pub is_done_before : ℕ → Bool
  pub is_done_on_error : ℕ → Bool
  pub now : ℕ → ℕ
  pub lcd : ℕ → ViewRegisteredEvent → Option (Hydration Database)
  pub taken : ℕ → Option ℕ
  pub dials : ℕ → List (Dial Conn)
  pub int64_n : ℕ → ℕ → ℕ

unfoldable pub second : ℕ
second = 1000000000

unfoldable pub max_backoff : ℕ
unfolding second
max_backoff = 60 * second

-- The backoff, give or take a quarter.
unfoldable pub jittered : ℕ → ℕ → ℕ
jittered backoff jitter = backoff + jitter - backoff / 4

unfoldable pub doubled : ℕ → ℕ
unfolding max_backoff
doubled backoff = if ltb max_backoff (backoff * 2) then max_backoff else backoff * 2

module _ {Conn Database : Type 0} (feed : Feed Conn Database) where
  open feed use {read, is_done_before, is_done_on_error, now, lcd, taken, dials, int64_n}

  unfoldable pub wait_of : ℕ → ℕ → ℕ
  unfolding jittered
  wait_of draw backoff = jittered backoff (int64_n draw (backoff / 2))

  cons_wait : ℕ → List ℕ × Reconnection Conn → List ℕ × Reconnection Conn
  cons_wait wait (waits, r) = (wait ∷ waits, r)

  unfoldable pub reconnect : List (Dial Conn) → ℕ → List ℕ × Reconnection Conn
  unfolding cons_wait wait_of doubled
  reconnect [] backoff = ([], Reconnection.retrying backoff)
  reconnect (Dial.cancelled draw ∷ later) backoff =
      (wait_of draw backoff ∷ [], Reconnection.cancelled backoff)
  reconnect (dial_failed draw ∷ later) backoff =
      cons_wait (wait_of draw backoff) (reconnect later (doubled backoff))
  reconnect (dialed draw conn ∷ later) backoff = (wait_of draw backoff ∷ [], connected conn backoff)

  resumed : ℕ → List ViewRegisteredEvent → List ℕ → List ℕ × Reconnection Conn → Listener Conn
  resumed t sent waits (more, Reconnection.retrying backoff) = record {
    running = trying backoff;
    sent = sent;
    waits = waits ++ more;
  }
  resumed t sent waits (more, Reconnection.cancelled backoff) = record {
    running = ended;
    sent = sent;
    waits = waits ++ more;
  }
  resumed t sent waits (more, connected conn backoff) = record {
    running = live (record { conn = conn; reads = 0; connected_at = t; backoff = backoff });
    sent = sent;
    waits = waits ++ more;
  }

  unfoldable pub handle_read_error :
      ℕ → Bool → Session Conn → List ViewRegisteredEvent → List ℕ → Listener Conn
  unfolding resumed reconnect
  handle_read_error round is_timeout s sent waits =
      if is_done_on_error round
      then record { running = ended; sent = sent; waits = waits }
      else if is_timeout
      then record {
        running = live (record s { connected_at = now round });
        sent = sent;
        waits = waits;
      }
      else resumed (now round) sent waits (reconnect (dials round) s.backoff)

  -- After a minute of a connection the backoff starts anew.
  settled : ℕ → Session Conn → Session Conn
  unfolding second
  settled t s = if ltb (60 * second) (t - s.connected_at) then record s { backoff = second } else s

  dispatched :
      Session Conn
      → List ViewRegisteredEvent
      → List ℕ
      → List ViewRegisteredEvent × Bool
      → Listener Conn
  dispatched s sent waits (more, true) = record {
    running = ended;
    sent = sent ++ more;
    waits = waits;
  }
  dispatched s sent waits (more, false) = record {
    running = live s;
    sent = sent ++ more;
    waits = waits;
  }

  -- A panic ends the loop.
  recover_panic : List ViewRegisteredEvent → List ℕ → Listener Conn
  recover_panic sent waits = record { running = ended; sent = sent; waits = waits }

  after_read : ℕ → ReadAnswer → Session Conn → List ViewRegisteredEvent → List ℕ → Listener Conn
  unfolding dispatched settled dispatch_events handle_read_error recover_panic
  after_read round (read_failed is_timeout) s sent waits =
      handle_read_error round is_timeout s sent waits
  after_read round read_panics s sent waits = recover_panic sent waits
  after_read round (message msg) s sent waits =
      dispatched (settled (now round) s) sent waits (dispatch_events (lcd round) msg (taken round))

  unfoldable pub process_next_message :
      ℕ → Session Conn → List ViewRegisteredEvent → List ℕ → Listener Conn
  unfolding after_read
  process_next_message round s sent waits =
      after_read round (read s.conn s.reads) (record s { reads = suc s.reads }) sent waits

  next_round : ℕ → Running Conn → Listener Conn → Listener Conn
  unfolding process_next_message
  next_round round (live s) l =
      if is_done_before round
      then record l { running = ended }
      else process_next_message round s l.sent l.waits
  next_round round _ l = l

  -- The loop after a number of rounds, from one on.
  unfoldable pub event_loop : ℕ → ℕ → Listener Conn → Listener Conn
  unfolding next_round
  event_loop zero round l = l
  event_loop (suc rounds) round l = event_loop rounds (suc round) (next_round round l.running l)

  unfoldable pub started : Conn → ℕ → Listener Conn
  unfolding second
  started conn t = record {
    running = live (record { conn = conn; reads = 0; connected_at = t; backoff = second });
    sent = [];
    waits = [];
  }
