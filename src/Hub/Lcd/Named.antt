-- ===== src/Hub/Lcd/Named.antt =====
-- The views that the wire format yields: view_processor.go.
use shinzo_host_client.Prelude.{◌≡◌, ◌≢◌, refl, Option, none, some, [], string_eq, arith, ==_iff}
use shinzo_host_client.Prelude.Bytes.{bytes_eq}
use shinzo_host_client.Prelude.Results.{Result, ok, err, or_error, ◌>>=◌}
use shinzo_host_client.Pruner.DocId.{Bytes}
use shinzo_host_client.Views as Views
use shinzo_host_client.Views.{View, ViewError, validate}
use shinzo_host_client.Views.Wire.{new_view_from_wire}
use shinzo_host_client.Hub.Lcd.{WireError, Lcd, checked, process_view_from_wire_format}

-- A view with a name, a query and an SDL.
pub record IsNamed (v : View) : Type 0 where
  pub name : v.name ≢ ""
  pub query : v.query ≢ []
  pub sdl : v.sdl ≢ []

-- What a step yields, if it yields something, has a property.
abbrev pub Yields : {E : Type 0} → (View → Type 0) → Result E View → Type 0
Yields P (ok v) = P v
Yields P (err e) = Unit

module _ {Database : Type 0} where
  validate-IsNamed :
      (services : Views.Services Database) (v : View) → validate services v ≡ ok tt → IsNamed v
  unfolding validate
  validate-IsNamed services v h = record {
    name = λ e. ground (arith, h, (==_iff v.name "").1 e);
    query = λ e. ground (arith, h, (==_iff v.query []).1 e);
    sdl = λ e. ground (arith, h, (==_iff v.sdl []).1 e);
  }

  checked-Yields :
      (lcd : Lcd Database) (v : View) (r : Result ViewError Unit)
      → validate lcd.services v ≡ r
      → Yields IsNamed (checked lcd v r)
  unfolding checked
  checked-Yields lcd v (ok tt) h = validate-IsNamed lcd.services v h
  checked-Yields lcd v (err e) h = tt

  -- What the wire format yields passed the validation.
  pub process_view_from_wire_format-Yields :
      (lcd : Lcd Database) (wire : Bytes) → Yields IsNamed (process_view_from_wire_format lcd wire)
  unfolding process_view_from_wire_format
  process_view_from_wire_format-Yields lcd wire = unbundled (lcd.services.decode_base64 wire)
    where
      viewed :
          (v : Option View)
          → Yields IsNamed
              (or_error WireError.view_from_wire v >>= λ w. checked lcd w (validate lcd.services w))
      viewed none = tt
      viewed (some v) = checked-Yields lcd v (validate lcd.services v) refl

      unbundled :
          (bytes : Option Bytes)
          → Yields IsNamed (
              or_error WireError.decode_base64_wire bytes >>= λ b.
              or_error WireError.view_from_wire (new_view_from_wire lcd.bundler b) >>= λ w.
              checked lcd w (validate lcd.services w))
      unbundled none = tt
      unbundled (some b) = viewed (new_view_from_wire lcd.bundler b)
