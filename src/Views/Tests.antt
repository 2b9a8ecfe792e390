-- ===== src/Views/Tests.antt =====
-- Runs of the view manager at concrete views.
use shinzo_host_client.Prelude.{ℕ, ◌+◌, ◌≡◌, refl, none, some, [], lookup}
use shinzo_host_client.Prelude.Bytes.{codes, has_prefix, has_infix}
use shinzo_host_client.Prelude.Results.{ok}
use shinzo_host_client.Host.Metrics.{new_host_metrics}
use shinzo_host_client.Views.{
  View, Services, validate, has_lenses, setup_lens_in_defra_db, configure_lens,
}
use shinzo_host_client.Views.Manager.{
  Manager, is_active, fix_query_input_data, fix_collection_name, extract_collection_from_query,
  activate, register_view,
}

abbrev view_services : Services ℕ
view_services = record {
  decode_base64 = λ s. none;
  write_wasm = λ i p w. none;
  add_lens = λ v db. (none, db);
  add_view = λ cid query sdl db. (none, db + 1);
  correct_query = λ e query. query;
}

abbrev a_view : View
a_view = record {
  name = "Transfers";
  contract_address = "0x1";
  query = codes "Log {inputData}";
  sdl = codes "type Transfers {}";
  lenses = [];
}

abbrev a_manager : Manager ℕ
a_manager = record { active_views = []; metrics = some (new_host_metrics 0); database = 0 }

fixed_query :
    (fix_collection_name (fix_query_input_data a_view)).query
    ≡ codes "Ethereum__Mainnet__Log {input}"
unfolding fix_collection_name fix_query_input_data has_prefix has_infix
    extract_collection_from_query
fixed_query = refl

abbrev left_view : View
left_view = record a_view { query = codes "Ethereum__Mainnet__Log {input}" }

registers : (register_view view_services a_view a_manager).0 ≡ ok left_view
unfolding register_view validate has_lenses setup_lens_in_defra_db configure_lens is_active
    fix_query_input_data fix_collection_name activate lookup has_infix
registers = refl
