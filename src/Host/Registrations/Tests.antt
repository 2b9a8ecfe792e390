-- ===== src/Host/Registrations/Tests.antt =====
-- A start of the host and an event behind it, at concrete views.
use shinzo_host_client.Prelude.{
  ℕ, ◌+◌, ◌≡◌, refl, String, Bool, true, none, some, List, [], ◌∷◌, lookup, insert, contains,
}
use shinzo_host_client.Prelude.Bytes.{codes, has_prefix, has_infix}
use shinzo_host_client.Views as Views
use shinzo_host_client.Views.{View, validate, has_lenses, setup_lens_in_defra_db, configure_lens}
use shinzo_host_client.Views.Manager.{
  is_active, activate, register_view, fix_query_input_data, fix_collection_name, deduplicate_views,
  extract_wasm_urls_from_views,
}
use shinzo_host_client.Views.Saved.{
  ViewsFile, stored, with_view, save_view_to_registry, add_views_from_lens_registry,
}
use shinzo_host_client.Views.Wasm.{Attempt, Paths, new_wasm_registry}
use shinzo_host_client.Views.Startup.{Startup, register_and_save, load_and_register_views}
use shinzo_host_client.Hub.Events.{ViewRegisteredEvent}
use shinzo_host_client.Host.Registrations.{Registrar, registrar, handle_incoming_events}
use shinzo_host_client.Host.Registrations.Persisted.{
  RegistrarPersisted, handle_incoming_events-Persisted,
}

abbrev database_services : Views.Services ℕ
database_services = record {
  decode_base64 = λ s. none;
  write_wasm = λ i p w. none;
  add_lens = λ v db. (none, db);
  add_view = λ cid query sdl db. (none, db + 1);
  correct_query = λ e query. query;
}

abbrev write_views : List View → ViewsFile → Bool × ViewsFile
write_views views file = (true, stored views)

abbrev view_called : String → View
view_called name = record {
  name = name;
  contract_address = "0x1";
  query = codes "Ethereum__Mainnet__Log {a}";
  sdl = codes "type T {}";
  lenses = [];
}

abbrev event_of : View → ViewRegisteredEvent
event_of v = record { view_id = "1"; contract_address = "0x1"; creator = "c"; view = v }

abbrev no_paths : Paths
no_paths = record { sha256 = λ s. s; absolute = λ name. name }

abbrev no_attempt : Attempt
no_attempt = record { answer = none; creates = true; removes = true; renames = true }

abbrev a_start : Startup ℕ
a_start = record {
  manager = record { active_views = []; metrics = none; database = 0 };
  wasm_registry = some (new_wasm_registry []);
  views_file = stored (view_called "B" ∷ []);
}

abbrev after_start : Startup ℕ
after_start =
    load_and_register_views database_services write_views no_paths (λ n. no_attempt)
      (view_called "A" ∷ view_called "B" ∷ []) a_start

abbrev after_event : Registrar ℕ
after_event =
    handle_incoming_events database_services write_views (event_of (view_called "C") ∷ [])
      (registrar database_services write_views (after_start.manager, after_start.views_file))

saves : after_event.views_file ≡ stored (view_called "B" ∷ view_called "A" ∷ view_called "C" ∷ [])
unfolding handle_incoming_events registrar register_and_save load_and_register_views
    save_view_to_registry add_views_from_lens_registry with_view register_view validate has_lenses
    setup_lens_in_defra_db configure_lens is_active fix_query_input_data fix_collection_name
    activate lookup insert has_infix has_prefix deduplicate_views extract_wasm_urls_from_views
    contains
saves = refl

handle_incoming_events-Persisted_example : RegistrarPersisted after_event
unfolding add_views_from_lens_registry
handle_incoming_events-Persisted_example =
    handle_incoming_events-Persisted database_services write_views no_paths (λ n. no_attempt)
      (view_called "A" ∷ view_called "B" ∷ []) (view_called "B" ∷ []) a_start
      (event_of (view_called "C") ∷ []) (λ views file. refl) refl refl
