-- ===== src/Hub/Dispatch.antt =====
-- pkg/shinzohub/events.go: the events of a message, with their views, sent to the channel.
pub mod Hydrated
use shinzo_host_client.Prelude.{
  ℕ, zero, suc, Bool, true, false, Option, none, some, List, [], ◌∷◌, ◌==◌, if◌then◌else◌,
}
use shinzo_host_client.Prelude.Bytes.{bytes_eq}
use shinzo_host_client.Prelude.Results.{Result, ok, err}
use shinzo_host_client.Views.{View}
use shinzo_host_client.Hub.Events.{RpcResponse, ViewRegisteredEvent, extract_shinzo_events}
use shinzo_host_client.Hub.Hydration.{HydrationError, Hydration, hydrate_view_bundle}

-- The event with its view; `none` where it is dropped.
with_view : ViewRegisteredEvent → Result HydrationError View → Option ViewRegisteredEvent
with_view e (err why) = none
with_view e (ok v) = some (record e { view = v })

unfoldable pub hydrated :
    {Database : Type 0}
    → Option (Hydration Database)
    → ViewRegisteredEvent
    → Option ViewRegisteredEvent
unfolding with_view hydrate_view_bundle
hydrated lcd e = if e.view.query == [] then with_view e (hydrate_view_bundle lcd e) else some e

-- The events sent, and whether the context is done.
cons_sent : ViewRegisteredEvent → List ViewRegisteredEvent × Bool → List ViewRegisteredEvent × Bool
cons_sent e (sent, stops) = (e ∷ sent, stops)

send :
    Option ViewRegisteredEvent
    → Option ℕ
    → (Option ℕ → List ViewRegisteredEvent × Bool)
    → List ViewRegisteredEvent × Bool
unfolding cons_sent
send none taken later = later taken
send (some e) none later = cons_sent e (later none)
send (some e) (some zero) later = ([], true)
send (some e) (some (suc n)) later = cons_sent e (later (some n))

dispatch_all :
    {Database : Type 0}
    → (ViewRegisteredEvent → Option (Hydration Database))
    → List ViewRegisteredEvent
    → Option ℕ
    → List ViewRegisteredEvent × Bool
unfolding send hydrated
dispatch_all lcd [] taken = ([], false)
dispatch_all lcd (e ∷ events) taken = send (hydrated (lcd e) e) taken (dispatch_all lcd events)

unfoldable pub dispatch_events :
    {Database : Type 0}
    → (ViewRegisteredEvent → Option (Hydration Database))
    → Option RpcResponse
    → Option ℕ
    → List ViewRegisteredEvent × Bool
unfolding dispatch_all extract_shinzo_events
dispatch_events lcd none taken = ([], false)
dispatch_events lcd (some msg) taken = dispatch_all lcd (extract_shinzo_events msg) taken
