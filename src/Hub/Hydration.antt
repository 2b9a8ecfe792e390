-- ===== src/Hub/Hydration.antt =====
-- pkg/shinzohub/events.go: the bundle of an announced view, fetched with retries.
pub mod Fetched
pub mod Valid
use shinzo_host_client.Prelude.{
  ℕ, zero, suc, String, Bool, true, false, not, ◌||◌, Option, none, some, ◌==◌, nat_eq, string_eq,
  if◌then◌else◌,
}
use shinzo_host_client.Prelude.Results.{Result, ok, err}
use shinzo_host_client.Pruner.DocId.{Bytes}
use shinzo_host_client.Views.{View}
use shinzo_host_client.Hub.Events.{ViewRegisteredEvent}
use shinzo_host_client.Hub.Lcd.{
  LcdError, lcd_http_status, lcd_empty_data, lcd_get, read_response, WireError, HttpAnswer, LcdView,
  Lcd, get_view_bundle, process_view_from_wire_format,
}

pub data FetchError : Type 0 where
  permanent : LcdError → FetchError
  context_done : FetchError
  gave_up : Option LcdError → FetchError

pub data HydrationError : Type 0 where
  no_lcd event_no_contract : HydrationError
  fetch_bundle : FetchError → HydrationError
  decode_bundle : WireError → HydrationError

unfoldable pub hydrate_max_attempts : ℕ
hydrate_max_attempts = 3

unfoldable pub is_transient_hydration_err : LcdError → Bool
is_transient_hydration_err lcd_http_status = true
is_transient_hydration_err lcd_empty_data = true
is_transient_hydration_err (lcd_get deadline timeout) = deadline || timeout
is_transient_hydration_err (read_response deadline timeout) = deadline || timeout
is_transient_hydration_err _ = false

-- The gateway, what it answers at each attempt, and whether the context is done in the wait behind it.
pub record Hydration (Database : Type 0) : Type 0 where
  pub lcd : Lcd Database
  pub get_view_at : ℕ → String → HttpAnswer (Option LcdView)
  pub is_done_after : ℕ → Bool

module _ {Database : Type 0} (hydration : Hydration Database) where
  open hydration use {lcd, get_view_at, is_done_after}

  unfoldable pub get_at : ℕ → String → Result LcdError Bytes
  unfolding get_view_bundle
  get_at attempt address = get_view_bundle (record lcd { get_view = get_view_at attempt }) address

  -- `left` is how many attempts there are behind this one.
  answered : ℕ → ℕ → Result FetchError Bytes → Result LcdError Bytes → Result FetchError Bytes
  unfolding is_transient_hydration_err
  answered left attempt later (ok wire) = ok wire
  answered left attempt later (err e) =
      if not (is_transient_hydration_err e)
      then err (permanent e)
      else if left == 0
      then err (gave_up (some e))
      else if is_done_after attempt
      then err context_done
      else later

  fetch_rounds : ℕ → ℕ → String → Result FetchError Bytes
  unfolding answered get_at
  fetch_rounds zero attempt address = err (gave_up none)
  fetch_rounds (suc left) attempt address =
      let later = fetch_rounds left (suc attempt) address in
      answered left attempt later (get_at attempt address)

  unfoldable pub fetch_bundle_with_retry : String → Result FetchError Bytes
  unfolding fetch_rounds hydrate_max_attempts
  fetch_bundle_with_retry address = fetch_rounds hydrate_max_attempts 1 address

  addressed : String → Result WireError View → Result HydrationError View
  addressed address (err e) = err (decode_bundle e)
  addressed address (ok v) = ok (record v { contract_address = address })

  decoded : String → Result FetchError Bytes → Result HydrationError View
  unfolding addressed process_view_from_wire_format
  decoded address (err e) = err (fetch_bundle e)
  decoded address (ok wire) = addressed address (process_view_from_wire_format lcd wire)

-- The view of an event, from a gateway if there is one.
unfoldable pub hydrate_view_bundle :
    {Database : Type 0}
    → Option (Hydration Database)
    → ViewRegisteredEvent
    → Result HydrationError View
unfolding decoded fetch_bundle_with_retry
hydrate_view_bundle none vre = err no_lcd
hydrate_view_bundle (some hydration) vre =
    if vre.contract_address == ""
    then err event_no_contract
    else decoded hydration vre.contract_address
        (fetch_bundle_with_retry hydration vre.contract_address)
