-- ===== src/Acp/Epoch.antt =====
-- pkg/acp/epoch.go: the settlement epoch, derived from the hub's height. Times are nanoseconds. A
-- refresh is atomic here: singleflight lets one height read serve the callers that wait for it.
use shinzo_host_client.Prelude.{
  ℕ, ◌-◌, ◌/◌, ◌<◌, ◌≤◌, Bool, true, false, ◌&&◌, Option, none, some, ◌==◌, nat_eq, if◌then◌else◌,
  ltb, ◌≡◌, ◌⊎◌, refl, inl, inr, Bool-cases, arith,
}

pub record EpochClock : Type 0 where
  pub epoch_length : ℕ
  pub interval : ℕ
  pub epoch : ℕ
  pub have_epoch : Bool
  pub last_fetch : ℕ

pub data Reading : Type 0 where
  epoch_is : ℕ → Reading
  unavailable : Reading  -- the error of the height read
  panics : Reading  -- division by an epoch length of zero

unfoldable pub new_epoch_clock : ℕ → ℕ → EpochClock
new_epoch_clock epoch_length interval = record {
  epoch_length = epoch_length;
  interval = interval;
  epoch = 0;
  have_epoch = false;
  last_fetch = 0;
}

-- The height read answers with a block number, or `none` for an error; `now` is read after it.
unfoldable pub refresh : Option ℕ → ℕ → EpochClock → Reading × EpochClock
refresh none now c = if c.have_epoch then (epoch_is c.epoch, c) else (unavailable, c)
refresh (some block) now c = if c.epoch_length == 0 then (panics, c) else (
  epoch_is (block / c.epoch_length),
  record c { epoch = block / c.epoch_length; have_epoch = true; last_fetch = now },
)

-- The clock does not run backwards, so `now().Sub(lastFetch)` is the difference of the times.
unfoldable pub is_cached : ℕ → EpochClock → Bool
is_cached now c = c.have_epoch && ltb (now - c.last_fetch) c.interval

-- `Epoch`: the reading, whether the hub was asked, and the clock.
unfoldable pub read_epoch : ℕ → Option ℕ → ℕ → EpochClock → Reading × Bool × EpochClock
unfolding refresh is_cached
read_epoch now height later c =
    if is_cached now c
    then (epoch_is c.epoch, false, c)
    else let (reading, c') = refresh height later c in (reading, true, c')

-- A clock whose epoch was once read answers whatever the hub does: within the interval with the
-- known epoch, without asking the hub; after it with the epoch of the hub's height, or, if the hub
-- fails, with the known epoch and an unchanged clock.
pub read_epoch_known :
    (now later : ℕ) (height : Option ℕ) (c : EpochClock)
    → 0 < c.epoch_length
    → c.have_epoch ≡ true
    → ((now - c.last_fetch < c.interval)
        × (read_epoch now height later c ≡ (epoch_is c.epoch, false, c)))
      ⊎ (((c.interval ≤ now - c.last_fetch)
            × (height ≡ none)
            × (read_epoch now height later c ≡ (epoch_is c.epoch, true, c)))
          ⊎ ((block : ℕ) × (c.interval ≤ now - c.last_fetch)
              × (height ≡ some block)
              × ((read_epoch now height later c).0 ≡ epoch_is (block / c.epoch_length))))
unfolding read_epoch
read_epoch_known now later height c pos_ known =
    elim (Bool-cases (ltb (now - c.last_fetch) c.interval)) [
      | inl recent ↦ inl (ground arith, ground arith)
      | inr old ↦ inr (asked height old)
    ]
  where
    asked :
        (h : Option ℕ)
        → ltb (now - c.last_fetch) c.interval ≡ false
        → ((c.interval ≤ now - c.last_fetch)
            × (h ≡ none)
            × (read_epoch now h later c ≡ (epoch_is c.epoch, true, c)))
          ⊎ ((block : ℕ) × (c.interval ≤ now - c.last_fetch)
              × (h ≡ some block)
              × ((read_epoch now h later c).0 ≡ epoch_is (block / c.epoch_length)))
    asked none old = inl (ground arith, refl, ground arith)
    asked (some b) old = inr (b, ground arith, refl, ground arith)

-- After a read that asked the hub and got a height, reads within the interval do not ask again and
-- give the same epoch, whatever the hub would answer.
pub read_epoch_once :
    (now later block soon later' : ℕ) (height : Option ℕ) (c : EpochClock)
    → 0 < c.epoch_length
    → is_cached now c ≡ false
    → soon - later < c.interval
    → read_epoch soon height later' (read_epoch now (some block) later c).2
      ≡ (epoch_is (block / c.epoch_length), false, (read_epoch now (some block) later c).2)
read_epoch_once now later block soon later' height c pos_ miss h =
    let asked : (read_epoch now (some block) later c).2
        ≡ record c { epoch = block / c.epoch_length; have_epoch = true; last_fetch = later } =
      unfold read_epoch in rw miss (ground arith) in
    rw asked (unfold read_epoch in ground arith)
