-- ===== src/Hub/Hydration/Fetched.antt =====
-- When the bundle of a view is fetched: events.go.
use shinzo_host_client.Prelude.{
  ℕ, zero, suc, ◌<◌, ◌≡◌, refl, String, true, false, ◌==◌, nat_eq, arith,
}
use shinzo_host_client.Prelude.Results.{ok, err}
use shinzo_host_client.Pruner.DocId.{Bytes}
use shinzo_host_client.Hub.Lcd.{LcdError}
use shinzo_host_client.Hub.Hydration.{
  Hydration, hydrate_max_attempts, is_transient_hydration_err, get_at, answered, fetch_rounds,
  fetch_bundle_with_retry,
}

module _ {Database : Type 0} (hydration : Hydration Database) (address : String) where
  open hydration use {is_done_after}

  -- The attempts from one on fail with errors that may pass, and the wait behind each runs, up to one
  -- that yields the wire.
  pub data Passes (wire : Bytes) : ℕ → ℕ → Type 0 where
    served : {attempt : ℕ} → get_at hydration attempt address ≡ ok wire → Passes wire attempt 0
    failed :
        {attempt failures : ℕ} {e : LcdError}
        → get_at hydration attempt address ≡ err e
        → is_transient_hydration_err e ≡ true
        → is_done_after attempt ≡ false
        → Passes wire (suc attempt) failures
        → Passes wire attempt (suc failures)

  fetch_rounds-Passes :
      {wire : Bytes} {attempt failures : ℕ}
      → Passes wire attempt failures
      → (left : ℕ) → failures < left
      → fetch_rounds hydration left attempt address ≡ ok wire
  unfolding fetch_rounds answered
  fetch_rounds-Passes passes zero h = absurd (omega (arith, h))
  fetch_rounds-Passes (served e) (suc left) h = rw e refl
  fetch_rounds-Passes (failed e transient runs later) (suc left) h = rw e (
      rw transient (
        rw (positive left (omega (arith, h)))
          (rw runs (fetch_rounds-Passes later left (omega (arith, h))))))
    where
      positive : (n : ℕ) → 0 < n → (n == 0) ≡ false
      positive n h = ground (arith, h)

  -- If less than three attempts fail, each with an error that may pass and with the context not done in
  -- the wait behind it, before the gateway serves the bundle, then the bundle is fetched.
  pub fetch_bundle_with_retry-Passes :
      (wire : Bytes) (failures : ℕ)
      → failures < 3
      → Passes wire 1 failures
      → fetch_bundle_with_retry hydration address ≡ ok wire
  unfolding fetch_bundle_with_retry hydrate_max_attempts
  fetch_bundle_with_retry-Passes wire failures h passes = fetch_rounds-Passes passes 3 h
