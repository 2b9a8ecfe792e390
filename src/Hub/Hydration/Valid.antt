-- ===== src/Hub/Hydration/Valid.antt =====
-- The views that the hydration yields: events.go.
use shinzo_host_client.Prelude.{
  ◌≡◌, ◌≢◌, refl, String, Option, none, some, ◌==◌, string_eq, arith, ==_iff, inl, inr, Bool-cases,
}
use shinzo_host_client.Prelude.Results.{Result, ok, err}
use shinzo_host_client.Pruner.DocId.{Bytes}
use shinzo_host_client.Views.{View}
use shinzo_host_client.Hub.Events.{ViewRegisteredEvent}
use shinzo_host_client.Hub.Lcd.{WireError, process_view_from_wire_format}
use shinzo_host_client.Hub.Lcd.Named.{IsNamed, Yields, process_view_from_wire_format-Yields}
use shinzo_host_client.Hub.Hydration.{
  FetchError, Hydration, addressed, decoded, fetch_bundle_with_retry, hydrate_view_bundle,
}

-- A named view under an address that is not empty.
pub record IsAt (address : String) (v : View) : Type 0 where
  pub named : IsNamed v
  pub same : v.contract_address ≡ address
  pub address_ : address ≢ ""

module _ {Database : Type 0} where
  addressed-Yields :
      (hydration : Hydration Database) (address : String) (r : Result WireError View)
      → address ≢ ""
      → Yields IsNamed r
      → Yields (IsAt address) (addressed hydration address r)
  unfolding addressed
  addressed-Yields hydration address (err e) filled h = tt
  addressed-Yields hydration address (ok v) filled h = record {
    named = record { name = h.name; query = h.query; sdl = h.sdl };
    same = refl;
    address_ = filled;
  }

  decoded-Yields :
      (hydration : Hydration Database) (address : String) (r : Result FetchError Bytes)
      → address ≢ ""
      → Yields (IsAt address) (decoded hydration address r)
  unfolding decoded
  decoded-Yields hydration address (err e) filled = tt
  decoded-Yields hydration address (ok wire) filled =
      addressed-Yields hydration address (process_view_from_wire_format hydration.lcd wire) filled
        (process_view_from_wire_format-Yields hydration.lcd wire)

  pub hydrate_view_bundle-Yields :
      (lcd : Option (Hydration Database)) (e : ViewRegisteredEvent)
      → Yields (IsAt e.contract_address) (hydrate_view_bundle lcd e)
  unfolding hydrate_view_bundle
  hydrate_view_bundle-Yields none e = tt
  hydrate_view_bundle-Yields (some hydration) e = elim (Bool-cases (e.contract_address == "")) [
    | inl empty ↦ rw empty tt
    | inr filled ↦ rw filled (
        decoded-Yields hydration e.contract_address
          (fetch_bundle_with_retry hydration e.contract_address)
          (λ same. ground (arith, filled, (==_iff e.contract_address "").1 same)))
  ]
