-- ===== src/Hub/Dispatch/Hydrated.antt =====
-- The events that are sent: events.go.
use shinzo_host_client.Prelude.{
  ℕ, zero, suc, ◌≡◌, Bool, Option, none, some, List, [], ◌∷◌, All, ==_iff,
}
use shinzo_host_client.Prelude.Bytes.{bytes_eq}
use shinzo_host_client.Prelude.Results.{Result, ok, err}
use shinzo_host_client.Views.{View}
use shinzo_host_client.Hub.Events.{RpcResponse, ViewRegisteredEvent, extract_shinzo_events}
use shinzo_host_client.Hub.Events.Complete.{extract_shinzo_events-unviewed}
use shinzo_host_client.Hub.Lcd.Named.{Yields}
use shinzo_host_client.Hub.Hydration.{HydrationError, Hydration, hydrate_view_bundle}
use shinzo_host_client.Hub.Hydration.Valid.{IsAt, hydrate_view_bundle-Yields}
use shinzo_host_client.Hub.Dispatch.{
  with_view, hydrated, cons_sent, send, dispatch_all, dispatch_events,
}

-- An event with a validated view under its own address.
abbrev pub IsHydrated : ViewRegisteredEvent → Type 0
IsHydrated e = IsAt e.contract_address e.view

abbrev pub AllHydrated : List ViewRegisteredEvent × Bool → Type 0
AllHydrated r = All IsHydrated r.0

abbrev IsDropped : Option ViewRegisteredEvent → Type 0
IsDropped none = Unit
IsDropped (some e) = IsHydrated e

with_view-IsDropped :
    (e : ViewRegisteredEvent) (r : Result HydrationError View)
    → Yields (IsAt e.contract_address) r
    → IsDropped (with_view e r)
unfolding with_view
with_view-IsDropped e (err why) h = tt
with_view-IsDropped e (ok v) h = record { named = h.named; same = h.same; address_ = h.address_ }

send-AllHydrated :
    (e : Option ViewRegisteredEvent) (taken : Option ℕ)
    (later : Option ℕ → List ViewRegisteredEvent × Bool)
    → IsDropped e
    → ((t : Option ℕ) → AllHydrated (later t))
    → AllHydrated (send e taken later)
unfolding send cons_sent
send-AllHydrated none taken later h rest = rest taken
send-AllHydrated (some e) none later h rest = (h, rest none)
send-AllHydrated (some e) (some zero) later h rest = tt
send-AllHydrated (some e) (some (suc n)) later h rest = (h, rest (some n))

module _ {Database : Type 0} (lcd : ViewRegisteredEvent → Option (Hydration Database)) where
  hydrated-IsDropped :
      (e : ViewRegisteredEvent) → e.view.query ≡ [] → IsDropped (hydrated (lcd e) e)
  unfolding hydrated
  hydrated-IsDropped e unviewed =
      rw ((==_iff e.view.query []).1 unviewed) (
        with_view-IsDropped e (hydrate_view_bundle (lcd e) e)
          (hydrate_view_bundle-Yields (lcd e) e))

  dispatch_all-AllHydrated :
      (events : List ViewRegisteredEvent) (taken : Option ℕ)
      → All (λ e. e.view.query ≡ []) events
      → AllHydrated (dispatch_all lcd events taken)
  unfolding dispatch_all
  dispatch_all-AllHydrated [] taken h = tt
  dispatch_all-AllHydrated (e ∷ events) taken (unviewed, h) =
      send-AllHydrated (hydrated (lcd e) e) taken (dispatch_all lcd events)
        (hydrated-IsDropped e unviewed) (λ t. dispatch_all-AllHydrated events t h)

  pub dispatch_events-AllHydrated :
      (msg : Option RpcResponse) (taken : Option ℕ) → AllHydrated (dispatch_events lcd msg taken)
  unfolding dispatch_events
  dispatch_events-AllHydrated none taken = tt
  dispatch_events-AllHydrated (some msg) taken =
      dispatch_all-AllHydrated (extract_shinzo_events msg) taken
        (extract_shinzo_events-unviewed msg)
