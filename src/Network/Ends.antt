-- ===== src/Network/Ends.antt =====
-- How the attempts to connect to a peer end: network_handler.go.
use shinzo_host_client.Prelude.{
  ℕ, zero, suc, ◌+◌, ◌<◌, ◌≡◌, ◌⊎◌, ◌∙◌, inl, inr, refl, ap, String, Bool, true, false, Option,
  none, some, arith, Bool-cases,
}
use shinzo_host_client.Prelude.Int.{ℤ}
use shinzo_host_client.Network.{
  ConnectionState, disconnected, connected, failed, PeerState, Dialing, dialed, connect_rounds,
  rounds_of, connect_peer,
}

module _ (dialing : Dialing) where
  open dialing use {dial, done_after, done_waiting}

  -- So many dials in a row that fail, from this attempt on.
  abbrev pub AllFail : ℕ → ℕ → Type 0
  AllFail zero attempt = Unit
  AllFail (suc left) attempt = ((e : String) × (dial attempt ≡ some e)) × AllFail left (suc attempt)

  -- The attempts of a peer end, with this many left from this one on: connected by the first dial that
  -- succeeds, failed where every dial fails, or disconnected where the context is done.
  pub data Ends (first left : ℕ) (ok : Bool) (p : PeerState) : Type 0 where
    succeeds :
        (n : ℕ)
        → n < left
        → AllFail n first
        → dial (first + n) ≡ none
        → ok ≡ true
        → p.state ≡ connected
        → p.last_error ≡ none
        → Ends first left ok p
    fails : AllFail left first → ok ≡ false → p.state ≡ failed → Ends first left ok p
    stops :
        (n : ℕ)
        → n < left
        → (done_after (first + n) ≡ true) ⊎ (done_waiting (first + n) ≡ true)
        → ok ≡ false
        → p.state ≡ disconnected
        → Ends first left ok p

  later :
      (first left : ℕ) (e : String) (ok : Bool) (p : PeerState)
      → dial first ≡ some e
      → Ends (suc first) left ok p
      → Ends first (suc left) ok p
  later first left e ok p d (succeeds n h f s o c l) =
      let same : first + suc n ≡ suc first + n = omega arith in
      succeeds (suc n) (omega (arith, h)) ((e, d), f) (ap dial same ∙ s) o c l
  later first left e ok p d (fails f o c) = fails ((e, d), f) o c
  later first left e ok p d (stops n h t o c) =
      let same : first + suc n ≡ suc first + n = omega arith in
      stops (suc n) (omega (arith, h)) (rw same t) o c

  dialed-Ends :
      (left attempt : ℕ) (again : PeerState → Bool × PeerState) (o : Option String) (p : PeerState)
      → ((q : PeerState) → Ends (suc attempt) left (again q).0 (again q).1)
      → dial attempt ≡ o
      → Ends attempt
          (suc left)
          (dialed dialing again attempt o p).0
          (dialed dialing again attempt o p).1
  unfolding dialed
  dialed-Ends left attempt again none p h d =
      let here : attempt + 0 ≡ attempt = omega arith in
      succeeds 0 (omega arith) tt (ap dial here ∙ d) refl refl refl
  dialed-Ends left attempt again (some e) p h d =
      let here : attempt + 0 ≡ attempt = omega arith in
      elim (Bool-cases (done_after attempt)) [
        | inl done ↦ rw done (stops 0 (omega arith) (inl (ap done_after here ∙ done)) refl refl)
        | inr going ↦ rw going (elim (Bool-cases (done_waiting attempt)) [
          | inl done ↦ rw done (stops 0 (omega arith) (inr (ap done_waiting here ∙ done)) refl refl)
          | inr waits ↦ rw waits (
              later attempt left e (again (record p { last_error = some e })).0
                (again (record p { last_error = some e })).1 d
                (h (record p { last_error = some e })))
        ])
      ]

  connect_rounds-Ends :
      (left attempt : ℕ) (p : PeerState)
      → Ends attempt left
          (connect_rounds dialing left attempt p).0
          (connect_rounds dialing left attempt p).1
  unfolding connect_rounds
  connect_rounds-Ends zero attempt p = fails tt refl refl
  connect_rounds-Ends (suc left) attempt p =
      dialed-Ends left attempt (connect_rounds dialing left (suc attempt)) (dial attempt)
        (record p { last_attempt = dialing.clock attempt; retry_count = suc attempt })
        (connect_rounds-Ends left (suc attempt)) refl

  -- Connecting to a peer ends: within the configured number of attempts it succeeds with the first dial
  -- that does, and the peer is connected without an error; or every dial fails, and the peer has
  -- failed; or the context is done behind one of the attempts, and the peer is disconnected.
  pub connect_peer-Ends :
      (max_retries : ℤ) (p : PeerState)
      → Ends 0
          (rounds_of dialing max_retries)
          (connect_peer dialing max_retries p).0
          (connect_peer dialing max_retries p).1
  unfolding connect_peer
  connect_peer-Ends max_retries p =
      connect_rounds-Ends (rounds_of dialing max_retries) 0
        (record p { state = ConnectionState.connecting; retry_count = 0 })
