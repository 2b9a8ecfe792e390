-- ===== src/Host/Registrations/Persisted.antt =====
-- The views that are active in the host are saved: host.go.
use shinzo_host_client.Prelude.{
  ℕ, lookup, arith, ◌≡◌, Bool, Option, none, some, List, [], ◌∷◌, ◌==◌, inl, inr, Bool-cases,
}
use shinzo_host_client.Prelude.Bytes.{bytes_eq}
use shinzo_host_client.Prelude.Results.{Result, ok, err}
use shinzo_host_client.Views as Views
use shinzo_host_client.Views.{View, ViewError}
use shinzo_host_client.Views.Manager.{Manager}
use shinzo_host_client.Views.Saved.{ViewsFile, IsWriting, add_views_from_lens_registry}
use shinzo_host_client.Views.Wasm.{Attempt, Paths}
use shinzo_host_client.Views.Startup.{Startup, load_and_register_views}
use shinzo_host_client.Views.Startup.Persisted.{
  IsPersisted, register_and_save-IsPersisted, load_and_register_views-IsPersisted,
}
use shinzo_host_client.Hub.Events.{ViewRegisteredEvent}
use shinzo_host_client.Host.Registrations.{
  Registrar, wasm_posted, registrar, registered_if, posted_if, handle_event, handle_incoming_events,
}

-- The active views of the manager, if there is one, are saved.
abbrev ManagerPersisted : {Database : Type 0} → Option (Manager Database) → ViewsFile → Type 0
ManagerPersisted none file = Unit
ManagerPersisted (some m) file = IsPersisted (m, file)

abbrev pub RegistrarPersisted : {Database : Type 0} → Registrar Database → Type 0
RegistrarPersisted h = ManagerPersisted h.view_manager h.views_file

module _ {Database : Type 0} (services : Views.Services Database)
    (write : List View → ViewsFile → Bool × ViewsFile) where
  registered_if-Persisted :
      (v : View) (m : Option (Manager Database)) (file : ViewsFile)
      → IsWriting write
      → ManagerPersisted m file
      → RegistrarPersisted (registered_if services write v m file)
  unfolding registered_if registrar
  registered_if-Persisted v none file writes p = tt
  registered_if-Persisted v (some m) file writes p =
      register_and_save-IsPersisted services write v (m, file) writes p

  posted_if-Persisted :
      (r : Result ViewError View) (h : Registrar Database)
      → IsWriting write
      → RegistrarPersisted h
      → RegistrarPersisted (posted_if services write r h)
  unfolding posted_if
  posted_if-Persisted (err e) h writes p = p
  posted_if-Persisted (ok w) h writes p =
      registered_if-Persisted w h.view_manager h.views_file writes p

  handle_event-Persisted :
      (e : ViewRegisteredEvent) (h : Registrar Database)
      → IsWriting write
      → RegistrarPersisted h
      → RegistrarPersisted (handle_event services write e h)
  unfolding handle_event
  handle_event-Persisted e h writes p = elim (Bool-cases (e.view.query == [])) [
    | inl empty ↦ rw empty p
    | inr query ↦ elim (Bool-cases (e.view.sdl == [])) [
      | inl empty ↦ rw query (rw empty p)
      | inr sdl ↦
          rw query (rw sdl (posted_if-Persisted (wasm_posted services write e.view) h writes p))
    ]
  ]

  handle_incoming_events-keeps :
      (events : List ViewRegisteredEvent) (h : Registrar Database)
      → IsWriting write
      → RegistrarPersisted h
      → RegistrarPersisted (handle_incoming_events services write events h)
  unfolding handle_incoming_events
  handle_incoming_events-keeps [] h writes p = p
  handle_incoming_events-keeps (e ∷ events) h writes p =
      handle_incoming_events-keeps events (handle_event services write e h) writes
        (handle_event-Persisted e h writes p)

  -- If every write of the saved views succeeds and leaves them in the file, and the file can be loaded,
  -- then a host that starts without active views, loads and registers the views of the hub and the
  -- saved ones, and handles any events, has saved each of its active views: the first one saved
  -- under its name has the query, the SDL and the address that it is active with.
  pub handle_incoming_events-Persisted :
      (paths : Paths) (attempts : ℕ → Attempt) (hub_views saved : List View) (s : Startup Database)
      (events : List ViewRegisteredEvent)
      → IsWriting write
      → s.manager.active_views ≡ []
      → add_views_from_lens_registry s.views_file ≡ ok saved
      → RegistrarPersisted (
          handle_incoming_events services write events (
            registrar services write (
              (load_and_register_views services write paths attempts hub_views s).manager,
              (load_and_register_views services write paths attempts hub_views s).views_file,
            )))
  unfolding registrar lookup
  handle_incoming_events-Persisted paths attempts hub_views saved s events writes fresh loads =
      handle_incoming_events-keeps events _ writes (
        load_and_register_views-IsPersisted services write paths attempts hub_views s writes
          (saved, loads, rw fresh (λ name a found. absurd (ground (arith, found)))))
