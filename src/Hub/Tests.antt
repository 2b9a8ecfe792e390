-- ===== src/Hub/Tests.antt =====
-- Runs of the hub's listener at a concrete message.
use shinzo_host_client.Prelude.{
  ℕ, suc, ◌+◌, ==_iff, ◌≡◌, refl, String, Bool, true, false, ◌&&◌, Option, none, some, List, [],
  ◌∷◌, ◌==◌, nat_eq, string_eq, if◌then◌else◌, length, lookup, arith, ltb, inl, inr, Bool-cases,
}
use shinzo_host_client.Prelude.Bytes.{codes}
use shinzo_host_client.Prelude.Results.{ok}
use shinzo_host_client.Views as Views
use shinzo_host_client.Views.{View, validate}
use shinzo_host_client.Views.Wire.{Bundle, Bundler, new_view_from_wire, extract_name_from_sdl}
use shinzo_host_client.Views.Manager.{is_active}
use shinzo_host_client.Views.Saved.{ViewsFile, missing, stored}
use shinzo_host_client.Hub.Events.{EventAttribute, RpcResponse, extract_shinzo_events}
use shinzo_host_client.Hub.Events.Complete.{announced, extract_shinzo_events-announced}
use shinzo_host_client.Hub.Lcd.{
  HttpAnswer, response, LcdView, Page, Lcd, body_of, decode_lcd_views,
  process_view_from_wire_format, get_view_bundle, fetch_all_registered_views,
}
use shinzo_host_client.Hub.Lcd.Pages.{
  Chain, last, more, lcd_views, fetch_all_registered_views-Chain,
}
use shinzo_host_client.Hub.Hydration.{
  Hydration, get_at, is_transient_hydration_err, fetch_bundle_with_retry,
}
use shinzo_host_client.Hub.Hydration.Fetched.{
  Passes, served, failed, fetch_bundle_with_retry-Passes,
}
use shinzo_host_client.Hub.Listener.{
  ReadAnswer, message, read_failed, read_panics, dialed, dial_failed, Listener, Feed, started,
  event_loop, process_next_message, second,
}
use shinzo_host_client.Hub.Listener.Paced.{IsPaced, event_loop-IsPaced}
use shinzo_host_client.Hub.Listener.Stuck.{IsRepeated, IsStuck, event_loop-IsStuck}
use shinzo_host_client.Host.Registrations.{Registrar, handle_incoming_events}
use shinzo_host_client.Host.Registrations.Handled.{RegistrarAddressed, event_loop-Addressed}

abbrev attribute : String → String → EventAttribute
attribute key value = record { key = key; value = value; index = true }

-- A registration, one that failed, and one without a creator.
abbrev a_message : RpcResponse
a_message = record {
  jsonrpc_version = "2.0";
  data_type = "tendermint/event/Tx";
  events = some (
      record {
        type_ = "view.view_registered";
        attributes =
            attribute "view_id" "7"
            ∷ attribute "contract_address" "0x1"
            ∷ attribute "creator" "c"
            ∷ [];
      }
      ∷ record {
        type_ = "view.view_registration_failed";
        attributes = attribute "view_id" "8" ∷ [];
      }
      ∷ record {
        type_ = "view.view_registered";
        attributes = attribute "view_id" "9" ∷ attribute "contract_address" "0x2" ∷ [];
      }
      ∷ []);
}

one_event : length (extract_shinzo_events a_message) ≡ 1
unfolding extract_shinzo_events
one_event = refl

extract_shinzo_events-announced_example : extract_shinzo_events a_message ≡ (
    if a_message.jsonrpc_version == "2.0" && a_message.data_type == "tendermint/event/Tx"
    then elim a_message.events [ none ↦ [] | some events ↦ announced events ]
    else [])
extract_shinzo_events-announced_example = extract_shinzo_events-announced a_message

abbrev a_bundle : Bundle
a_bundle = record { query = codes "Log {a}"; sdl = codes "type T {a}"; lenses = [] }

abbrev a_bundler : Bundler
a_bundler = record {
  unbundle_view = λ wire. some a_bundle;
  type_with_directive = λ sdl. none;
  type_with_fields = λ sdl. some "T";
}

abbrev some_services : Views.Services ℕ
some_services = record {
  decode_base64 = λ s. some s;
  write_wasm = λ i p w. none;
  add_lens = λ v db. (none, db);
  add_view = λ cid query sdl db. (none, db + 1);
  correct_query = λ e query. query;
}

abbrev lcd_view : String → LcdView
lcd_view address = record {
  name = "T";
  creator = "c";
  contract_address = address;
  data_ = codes "wire";
}

abbrev page_one : Page
page_one = record { views = lcd_view "0x1" ∷ []; next_key = "k" }

abbrev page_two : Page
page_two = record { views = lcd_view "0x2" ∷ lcd_view "0x3" ∷ []; next_key = "" }

abbrev page_at : String → HttpAnswer (Option Page)
page_at key = if key == "" then response 200 (some page_one) else response 200 (some page_two)

abbrev a_lcd : Lcd ℕ
a_lcd = record {
  lcd_url = "http://hub";
  get_view = λ address. response 200 (some (lcd_view address));
  get_page = page_at;
  bundler = a_bundler;
  services = some_services;
}

a_lcd-Chain : Chain a_lcd "" (page_one ∷ page_two ∷ []) none
unfolding body_of
a_lcd-Chain = more refl (λ e. ground (arith, (==_iff {K = String} "k" "").1 e)) (last refl refl)

fetch_all_registered_views-Chain_example :
    fetch_all_registered_views a_lcd 3
    ≡ some (decode_lcd_views a_lcd (lcd_views (page_one ∷ page_two ∷ [])), none)
fetch_all_registered_views-Chain_example =
    fetch_all_registered_views-Chain a_lcd (page_one ∷ page_two ∷ []) none 3
      (λ e. ground (arith, (==_iff {K = String} "http://hub" "").1 e)) a_lcd-Chain (omega arith)

three_views : length (decode_lcd_views a_lcd (lcd_views (page_one ∷ page_two ∷ []))) ≡ 3
unfolding decode_lcd_views process_view_from_wire_format new_view_from_wire extract_name_from_sdl
    validate
three_views = refl

-- The gateway answers the first attempt with an error status.
abbrev late_view : ℕ → String → HttpAnswer (Option LcdView)
late_view attempt address =
    if attempt == 1 then response 404 none else response 200 (some (lcd_view address))

abbrev a_hydration : Hydration ℕ
a_hydration = record { lcd = a_lcd; get_view_at = late_view; is_done_after = λ attempt. false }

late : Passes a_hydration "0x1" (codes "wire") 1 1
unfolding get_at get_view_bundle is_transient_hydration_err body_of
late = failed refl refl refl (served refl)

fetch_bundle_with_retry-Passes_example :
    fetch_bundle_with_retry a_hydration "0x1" ≡ ok (codes "wire")
fetch_bundle_with_retry-Passes_example =
    fetch_bundle_with_retry-Passes a_hydration "0x1" (codes "wire") 1 (omega arith) late

-- The first connection has the message, and then errors; the second one times out. Both panic in the
-- end.
abbrev read_of : ℕ → ℕ → ReadAnswer
read_of conn n =
    if conn == 0
    then (if n == 0
        then message (some a_message)
        else if ltb n 1000
        then read_failed false
        else read_panics)
    else if ltb n 1000
    then read_failed true
    else read_panics

abbrev a_feed : Feed ℕ ℕ
a_feed = record {
  read = read_of;
  is_done_before = λ round. false;
  is_done_on_error = λ round. false;
  now = λ round. round;
  lcd = λ round e. some a_hydration;
  taken = λ round. none;
  dials = λ round. dial_failed 0 ∷ dialed 1 1 ∷ [];
  int64_n = λ draw bound. 0;
}

runs : (event_loop a_feed 3 0 (started a_feed 0 0)).waits ≡ 750000000 ∷ 1500000000 ∷ []
unfolding event_loop process_next_message started second
runs = refl

event_loop-IsPaced_example : IsPaced (event_loop a_feed 3 0 (started a_feed 0 0))
event_loop-IsPaced_example = event_loop-IsPaced a_feed 0 0 3 (λ draw bound h. h)

abbrev timing_out : Listener ℕ
timing_out = started a_feed 1 0

permanent :
    (conn n : ℕ) (is_timeout : Bool)
    → read_of conn n ≡ read_failed is_timeout
    → IsRepeated is_timeout (read_of conn (suc n))
permanent conn n is_timeout h = elim (Bool-cases (ltb n 999)) [
  | inl early ↦ inl (ground (arith, h, early))
  | inr late ↦ inr (ground (arith, h, late))
]

event_loop-IsStuck_example : IsStuck a_feed 1 timing_out (event_loop a_feed 5 0 timing_out)
unfolding started
event_loop-IsStuck_example =
    event_loop-IsStuck a_feed timing_out
      (record { conn = 1; reads = 0; connected_at = 0; backoff = second }) 5 0 permanent (λ r. refl)
      (λ r. refl) refl refl

abbrev write_file : List View → ViewsFile → Bool × ViewsFile
write_file views file = (true, stored views)

abbrev a_registrar : Registrar ℕ
a_registrar = record {
  view_manager = some (record { active_views = []; metrics = none; database = 0 });
  views_file = missing;
}

a_registrar-Addressed : RegistrarAddressed a_registrar
unfolding is_active lookup
a_registrar-Addressed name h = ground (arith, h)

event_loop-Addressed_example : RegistrarAddressed (
    handle_incoming_events some_services write_file
      (event_loop a_feed 3 0 (started a_feed 0 0)).sent
      a_registrar)
event_loop-Addressed_example =
    event_loop-Addressed some_services write_file a_feed 0 0 3 a_registrar a_registrar-Addressed
