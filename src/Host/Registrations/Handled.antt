-- ===== src/Host/Registrations/Handled.antt =====
-- What the events of the hub leave in the view manager: host.go.
use shinzo_host_client.Prelude.{
  ℕ, ◌≡◌, ◌≢◌, refl, Bool, Option, none, some, List, [], ◌∷◌, ◌==◌, All, inl, inr, arith,
  Bool-cases,
}
use shinzo_host_client.Prelude.Bytes.{bytes_eq}
use shinzo_host_client.Prelude.Results.{Result, ok, err}
use shinzo_host_client.Views as Views
use shinzo_host_client.Views.{View, ViewError, has_lenses, post_wasm_to_file}
use shinzo_host_client.Views.Manager.{Manager, register_view}
use shinzo_host_client.Views.Manager.Kept.{IsSame-refl, Keeps, post_wasm_to_file-Keeps}
use shinzo_host_client.Views.Manager.Addressed.{IsAddressed, register_view-IsAddressed}
use shinzo_host_client.Views.Saved.{ViewsFile}
use shinzo_host_client.Views.Startup.{saved_if, register_and_save}
use shinzo_host_client.Hub.Events.{ViewRegisteredEvent}
use shinzo_host_client.Hub.Listener.{Feed, event_loop, started}
use shinzo_host_client.Hub.Dispatch.Hydrated.{IsHydrated}
use shinzo_host_client.Hub.Listener.Sent.{event_loop-SentHydrated}
use shinzo_host_client.Host.Registrations.{
  Registrar, wasm_posted, registered, posted, processed, process_view_registration_event, registrar,
  registered_if, posted_if, handle_event, handle_incoming_events,
}

-- The active views of the manager, if there is one, have addresses.
abbrev ManagerAddressed : {Database : Type 0} → Option (Manager Database) → Type 0
ManagerAddressed none = Unit
ManagerAddressed (some m) = IsAddressed m

abbrev pub RegistrarAddressed : {Database : Type 0} → Registrar Database → Type 0
RegistrarAddressed h = ManagerAddressed h.view_manager

module _ {Database : Type 0} (services : Views.Services Database)
    (write : List View → ViewsFile → Bool × ViewsFile) where
  wasm_posted-Keeps : (v : View) → Keeps v (wasm_posted services write v)
  unfolding wasm_posted
  wasm_posted-Keeps v = elim (Bool-cases (has_lenses v)) [
    | inl has ↦ rw has (post_wasm_to_file-Keeps services v)
    | inr hasnt ↦ rw hasnt (IsSame-refl v)
  ]

  saved_if-IsAddressed :
      (out : Result ViewError View × Manager Database) (file : ViewsFile)
      → IsAddressed out.1
      → IsAddressed (saved_if services write out file).0
  unfolding saved_if
  saved_if-IsAddressed (err e, m) file h = h
  saved_if-IsAddressed (ok w, m) file h = h

  registered_if-Addressed :
      (v : View) (m : Option (Manager Database)) (file : ViewsFile)
      → v.contract_address ≢ ""
      → ManagerAddressed m
      → RegistrarAddressed (registered_if services write v m file)
  unfolding registered_if register_and_save registrar
  registered_if-Addressed v none file filled h = tt
  registered_if-Addressed v (some m) file filled h =
      saved_if-IsAddressed (register_view services v m) file
        (register_view-IsAddressed services v m filled h)

  posted_if-Addressed :
      (v : View) (r : Result ViewError View) (h : Registrar Database)
      → Keeps v r
      → v.contract_address ≢ ""
      → RegistrarAddressed h
      → RegistrarAddressed (posted_if services write r h)
  unfolding posted_if
  posted_if-Addressed v (err e) h keeps filled addressed = addressed
  posted_if-Addressed v (ok w) h keeps filled addressed =
      registered_if-Addressed w h.view_manager h.views_file (rw keeps.contract_address filled)
        addressed

  handle_event-Addressed :
      (e : ViewRegisteredEvent) (h : Registrar Database)
      → IsHydrated e
      → RegistrarAddressed h
      → RegistrarAddressed (handle_event services write e h)
  unfolding handle_event
  handle_event-Addressed e h hydrated addressed = elim (Bool-cases (e.view.query == [])) [
    | inl empty ↦ rw empty addressed
    | inr query ↦ elim (Bool-cases (e.view.sdl == [])) [
      | inl empty ↦ rw query (rw empty addressed)
      | inr sdl ↦ rw query (
          rw sdl (
            posted_if-Addressed e.view (wasm_posted services write e.view) h
              (wasm_posted-Keeps e.view) (rw hydrated.same hydrated.address_) addressed))
    ]
  ]

  handle_incoming_events-Addressed :
      (events : List ViewRegisteredEvent) (h : Registrar Database)
      → All IsHydrated events
      → RegistrarAddressed h
      → RegistrarAddressed (handle_incoming_events services write events h)
  unfolding handle_incoming_events
  handle_incoming_events-Addressed [] h hydrated addressed = addressed
  handle_incoming_events-Addressed (e ∷ events) h (one, all) addressed =
      handle_incoming_events-Addressed events (handle_event services write e h) all
        (handle_event-Addressed e h one addressed)

  -- If every active view of the host has a contract address, then so it is after the host has handled
  -- all events that the hub's listener has sent, whatever the listener met.
  pub event_loop-Addressed :
      {Conn HubDatabase : Type 0} (feed : Feed Conn HubDatabase) (conn : Conn) (t rounds : ℕ)
      (h : Registrar Database)
      → RegistrarAddressed h
      → RegistrarAddressed (
          handle_incoming_events services write
            (event_loop feed rounds 0 (started feed conn t)).sent
            h)
  event_loop-Addressed feed conn t rounds h addressed =
      handle_incoming_events-Addressed (event_loop feed rounds 0 (started feed conn t)).sent h
        (event_loop-SentHydrated feed conn t rounds) addressed

  saved_if-registered :
      (out : Result ViewError View × Manager Database) (file : ViewsFile)
      → (registered services write out file).1
        ≡ registrar services write (saved_if services write out file)
  unfolding registered saved_if registrar
  saved_if-registered (err e, m) file = refl
  saved_if-registered (ok w, m) file = refl

  posted_if-posted :
      (r : Result ViewError View) (m : Manager Database) (file : ViewsFile)
      → (posted services write r m file).1
        ≡ posted_if services write r (record { view_manager = some m; views_file = file })
  unfolding posted posted_if registered_if register_and_save
  posted_if-posted (err e) m file = refl
  posted_if-posted (ok v) m file = saved_if-registered (register_view services v m) file

  posted_if-none :
      (r : Result ViewError View) (file : ViewsFile)
      → posted_if services write r (record { view_manager = none; views_file = file })
        ≡ record { view_manager = none; views_file = file }
  unfolding posted_if registered_if
  posted_if-none (err e) file = refl
  posted_if-none (ok v) file = refl

  processed-handle_event :
      (e : ViewRegisteredEvent) (m : Option (Manager Database)) (file : ViewsFile)
      → (processed services write e.view m file).1
        ≡ handle_event services write e (record { view_manager = m; views_file = file })
  unfolding processed handle_event
  processed-handle_event e none file =
      ground (arith, posted_if-none (wasm_posted services write e.view) file)
  processed-handle_event e (some m) file = elim (Bool-cases (e.view.query == [])) [
    | inl empty ↦ rw empty refl
    | inr query ↦ elim (Bool-cases (e.view.sdl == [])) [
      | inl empty ↦ rw query (rw empty refl)
      | inr sdl ↦ rw query (rw sdl (posted_if-posted (wasm_posted services write e.view) m file))
    ]
  ]

  -- `ProcessViewRegistrationEvent` leaves the host as the loop over the hub's events does.
  pub process_view_registration_event-handle :
      (e : ViewRegisteredEvent) (h : Registrar Database)
      → (process_view_registration_event services write e h).1
        ≡ handle_incoming_events services write (e ∷ []) h
  unfolding process_view_registration_event handle_incoming_events
  process_view_registration_event-handle e h = processed-handle_event e h.view_manager h.views_file
