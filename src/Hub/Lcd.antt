-- ===== src/Hub/Lcd.antt =====
-- pkg/shinzohub/query.go and view_processor.go: the views that the hub's REST gateway serves. HTTP and
-- JSON, and the libraries behind a view's bundle, answer through `Lcd`.
pub mod Pages
pub mod Named
use shinzo_host_client.Prelude.{
  ℕ, zero, suc, String, Bool, true, false, not, ◌&&◌, ◌||◌, Option, none, some, List, [], ◌∷◌, ◌++◌,
  ◌==◌, nat_eq, string_eq, if◌then◌else◌,
}
use shinzo_host_client.Prelude.Bytes.{bytes_eq}
use shinzo_host_client.Prelude.Results.{Result, ok, err, ◌>>=◌, or_error}
use shinzo_host_client.Pruner.DocId.{Bytes}
use shinzo_host_client.Views as Views
use shinzo_host_client.Views.{View, ViewError, validate}
use shinzo_host_client.Views.Wire.{Bundler, new_view_from_wire}

-- An error of the client or of reading says whether it is a deadline that passed, and whether it is
-- a timeout.
pub data LcdError : Type 0 where
  lcd_not_configured build_request lcd_http_status decode_response lcd_empty_data : LcdError
  lcd_get read_response : Bool → Bool → LcdError

pub data WireError : Type 0 where
  decode_base64_wire view_from_wire : WireError
  invalid_view : ViewError → WireError

-- What a GET yields: the request cannot be made, an error, an error while the body is read, or a
-- status and a body.
pub data HttpAnswer (Body : Type 0) : Type 0 where
  no_request : HttpAnswer Body
  no_response unread : Bool → Bool → HttpAnswer Body
  response : ℕ → Body → HttpAnswer Body

pub record LcdView : Type 0 where
  pub name : String
  pub creator : String
  pub contract_address : String
  pub data_ : Bytes

pub record Page : Type 0 where
  pub views : List LcdView
  pub next_key : String

-- A page is asked for by its key, which is empty for the first one; a body that does not decode is
-- `none`.
pub record Lcd (Database : Type 0) : Type 0 where
  pub lcd_url : String
  pub get_view : String → HttpAnswer (Option LcdView)
  pub get_page : String → HttpAnswer (Option Page)
  pub bundler : Bundler
  pub services : Views.Services Database

-- The status is checked before the body is decoded.
unfoldable pub body_of : {Body : Type 0} → HttpAnswer (Option Body) → Result LcdError Body
body_of no_request = err build_request
body_of (no_response deadline timeout) = err (lcd_get deadline timeout)
body_of (unread deadline timeout) = err (read_response deadline timeout)
body_of (response status body) =
    if not (status == 200) then err lcd_http_status else or_error decode_response body

data_of : LcdView → Result LcdError Bytes
data_of lv = if lv.data_ == [] then err lcd_empty_data else ok lv.data_

module _ {Database : Type 0} (lcd : Lcd Database) where
  open lcd use {lcd_url, get_view, get_page, bundler, services}

  unfoldable pub get_view_bundle : String → Result LcdError Bytes
  unfolding body_of data_of
  get_view_bundle contract_address =
      if lcd_url == ""
      then err lcd_not_configured
      else body_of (get_view contract_address) >>= λ lv. data_of lv

  checked : View → Result ViewError Unit → Result WireError View
  checked v (ok _) = ok v
  checked v (err e) = err (invalid_view e)

  unfoldable pub process_view_from_wire_format : Bytes → Result WireError View
  unfolding checked validate new_view_from_wire
  process_view_from_wire_format wire_base64 = do
    wire ← or_error decode_base64_wire (services.decode_base64 wire_base64)
    v ← or_error view_from_wire (new_view_from_wire bundler wire)
    checked v (validate services v)

  addressed : LcdView → Result WireError View → Option View
  addressed lv (err e) = none
  addressed lv (ok v) = some (record v { contract_address = lv.contract_address })

  -- A view of the hub; `none` where it is skipped.
  unfoldable pub decode_lcd_view : LcdView → Option View
  unfolding addressed process_view_from_wire_format
  decode_lcd_view lv =
      if lv.data_ == [] then none else addressed lv (process_view_from_wire_format lv.data_)

  kept_of : Option View → List View → List View
  kept_of none views = views
  kept_of (some v) views = v ∷ views

  unfoldable pub decode_lcd_views : List LcdView → List View
  unfolding decode_lcd_view kept_of
  decode_lcd_views [] = []
  decode_lcd_views (lv ∷ lvs) = kept_of (decode_lcd_view lv) (decode_lcd_views lvs)

  -- The loop over the pages, for as many of them as there are rounds: the views so far, and the error
  -- that ended it; `none` where the rounds do not suffice.
  next_pages :
      (String → List View → Option (List View × Option LcdError))
      → Result LcdError Page
      → List View
      → Option (List View × Option LcdError)
  unfolding decode_lcd_views
  next_pages more (err e) views = some (views, some e)
  next_pages more (ok page) views =
      let views' = views ++ decode_lcd_views page.views in
      let rest = more page.next_key views' in
      if page.next_key == "" then some (views', none) else rest

  fetch_pages : ℕ → String → List View → Option (List View × Option LcdError)
  unfolding next_pages body_of
  fetch_pages zero next_key views = none
  fetch_pages (suc rounds) next_key views =
      next_pages (fetch_pages rounds) (body_of (get_page next_key)) views

  unfoldable pub fetch_all_registered_views : ℕ → Option (List View × Option LcdError)
  unfolding fetch_pages
  fetch_all_registered_views rounds =
      if lcd_url == "" then some ([], some lcd_not_configured) else fetch_pages rounds "" []
