-- ===== src/Host/Registrations.antt =====
-- pkg/host/host.go: the registrations of views that the hub announces, handled by the loop over the
-- events and by `ProcessViewRegistrationEvent`. The view manager is `none` where the host has none.
pub mod Handled
pub mod Persisted
mod Tests
use shinzo_host_client.Prelude.{
  Bool, true, false, Option, none, some, List, [], ◌∷◌, ◌==◌, if◌then◌else◌,
}
use shinzo_host_client.Prelude.Bytes.{bytes_eq}
use shinzo_host_client.Prelude.Results.{Result, ok, err}
use shinzo_host_client.Views as Views
use shinzo_host_client.Views.{View, ViewError, has_lenses, post_wasm_to_file}
use shinzo_host_client.Views.Manager.{Manager, register_view}
use shinzo_host_client.Views.Saved.{ViewsFile, save_view_to_registry}
use shinzo_host_client.Views.Startup.{register_and_save}
use shinzo_host_client.Hub.Events.{ViewRegisteredEvent}

pub record Registrar (Database : Type 0) : Type 0 where
  pub view_manager : Option (Manager Database)
  pub views_file : ViewsFile

pub data RegistrationError : Type 0 where
  view_manager_nil view_missing_query view_missing_sdl : RegistrationError
  write_wasm register_failed : ViewError → RegistrationError

module _ {Database : Type 0} (services : Views.Services Database)
    (write : List View → ViewsFile → Bool × ViewsFile) where
  -- The view with its files written, if it has lenses.
  wasm_posted : View → Result ViewError View
  unfolding has_lenses post_wasm_to_file
  wasm_posted v = if has_lenses v then post_wasm_to_file services v else ok v

  -- What a registration leaves: the view is saved if it was registered.
  registered :
      Result ViewError View × Manager Database
      → ViewsFile
      → Option RegistrationError × Registrar Database
  unfolding save_view_to_registry
  registered (err e, m) file =
      (some (register_failed e), record { view_manager = some m; views_file = file })
  registered (ok w, m) file =
      (none, record { view_manager = some m; views_file = (save_view_to_registry write w file).1 })

  posted :
      Result ViewError View
      → Manager Database
      → ViewsFile
      → Option RegistrationError × Registrar Database
  unfolding registered register_view
  posted (err e) m file = (some (write_wasm e), record { view_manager = some m; views_file = file })
  posted (ok v) m file = registered (register_view services v m) file

  processed :
      View → Option (Manager Database) → ViewsFile → Option RegistrationError × Registrar Database
  unfolding posted wasm_posted
  processed v none file = (some view_manager_nil, record { view_manager = none; views_file = file })
  processed v (some m) file =
      if v.query == []
      then (some view_missing_query, record { view_manager = some m; views_file = file })
      else if v.sdl == []
      then (some view_missing_sdl, record { view_manager = some m; views_file = file })
      else posted (wasm_posted v) m file

  unfoldable pub process_view_registration_event :
      ViewRegisteredEvent → Registrar Database → Option RegistrationError × Registrar Database
  unfolding processed
  process_view_registration_event e h = processed e.view h.view_manager h.views_file

  -- The same in the loop, where errors are only logged.
  unfoldable pub registrar : Manager Database × ViewsFile → Registrar Database
  registrar (m, file) = record { view_manager = some m; views_file = file }

  registered_if : View → Option (Manager Database) → ViewsFile → Registrar Database
  unfolding registrar register_and_save
  registered_if v none file = record { view_manager = none; views_file = file }
  registered_if v (some m) file = registrar (register_and_save services write v (m, file))

  posted_if : Result ViewError View → Registrar Database → Registrar Database
  unfolding registered_if
  posted_if (err e) h = h
  posted_if (ok v) h = registered_if v h.view_manager h.views_file

  handle_event : ViewRegisteredEvent → Registrar Database → Registrar Database
  unfolding posted_if wasm_posted
  handle_event e h =
      if e.view.query == []
      then h
      else if e.view.sdl == []
      then h
      else posted_if (wasm_posted e.view) h

  -- The loop over the events that come, the oldest first.
  unfoldable pub handle_incoming_events :
      List ViewRegisteredEvent → Registrar Database → Registrar Database
  unfolding handle_event
  handle_incoming_events [] h = h
  handle_incoming_events (e ∷ events) h = handle_incoming_events events (handle_event e h)
