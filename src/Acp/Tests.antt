-- ===== src/Acp/Tests.antt =====
-- Examples for pkg/acp: a query of one view through a fragment, and a payer with a balance.
use shinzo_host_client.Prelude.{
  ℕ, ◌+◌, ◌≢◌, ◌≡◌, ◌↔◌, refl, String, true, false, Option, none, some, List, [], ◌∷◌, map, ◌==◌,
  nat_eq, string_eq, contains, if◌then◌else◌, lookup, insert, All,
}
use shinzo_host_client.Prelude.Int.{pos}
use shinzo_host_client.Acp.Query.{
  Selections, nil, cons, field, fragment_spread, QueryDocument, TopLevelField, ok, top_level_fields,
  collection_names, response_keys,
}
use shinzo_host_client.Acp.Query.Keys.{Ensures}
use shinzo_host_client.Acp.Query.Complete.{here, spread, this, top_level_fields-Reaches}
use shinzo_host_client.Acp.Epoch.{EpochClock}
use shinzo_host_client.Acp.Balance.{new_balance_authorizer, store_balance}
use shinzo_host_client.Acp.Balance.Funded.{HubRead, initial, write, Justified, Reached-Justified}
use shinzo_host_client.Acp.Request.{
  Request, GraphqlRequest, get, post, absent, present, parse_graphql_request,
}
use shinzo_host_client.Acp.Gate.{Extensions, Response, Services, array, served, parsed_query, wrap}
use shinzo_host_client.Acp.Gate.Decision.{IsAuthorized, wrap-IsAuthorized}
use shinzo_host_client.Acp.Gate.Unbilled.{wrap_passed}
use shinzo_host_client.Acp.Registry.{new_view_registry, register_view-gates}
use shinzo_host_client.Prelude.Bytes.{codes, has_infix}
use shinzo_host_client.Views as Views
use shinzo_host_client.Views.{View, validate, has_lenses, setup_lens_in_defra_db, configure_lens}
use shinzo_host_client.Views.Manager.{
  Manager, is_active, contract_address, fix_query_input_data, fix_collection_name, activate,
  register_view, register_all,
}

abbrev fragments : String → Option Selections
fragments name = if name == "F" then some (cons (field "v" "View" nil) nil) else none

abbrev a_selection : Selections
a_selection = cons (fragment_spread "F") (cons (field "other" "Block" nil) nil)

abbrev a_document : QueryDocument
a_document = record {
  operations = record { name = "Q"; selection_set = a_selection } ∷ [];
  fragment = fragments;
}

top_level_fields-Reaches_example :
    Ensures
      (λ fields. contains (map (λ f. f.response_key) fields) "v" ≡ true)
      (top_level_fields (some (some a_document)) "Q")
top_level_fields-Reaches_example =
    top_level_fields-Reaches a_document "Q" "v" (this refl (spread refl here))

abbrev a_clock : EpochClock
a_clock = record {
  epoch_length = 10;
  interval = 100;
  epoch = 3;
  have_epoch = true;
  last_fetch = 50;
}

abbrev reads : List (HubRead ℕ)
reads = record { epoch = 3; payer = 7; balance = pos 100 } ∷ []

Reached-Justified_example :
    Justified (pos 10) reads (store_balance 3 7 (pos 100) (new_balance_authorizer (pos 10)))
Reached-Justified_example = Reached-Justified (pos 10) (write 3 7 (pos 100) initial)

abbrev an_envelope : Extensions
an_envelope = record { request_signature = some "s"; request_timestamp = 5; pool_address = "p" }

abbrev some_services : Services ℕ
some_services = record {
  decode_payload = λ t. none;
  parse_query = λ q. some a_document;
  decode_extensions = λ t. some an_envelope;
  is_view = λ name. name == "View";
  contract_address = λ name. some "0x1";
  is_fresh = λ t. true;
  verify_request = λ q v e. some 7;
  is_zero_pool = λ p. false;
  authorize = λ payer. some true;
  next = record { status = 200; body = some (("v", array 3) ∷ []) };
}

abbrev a_request : Request
a_request = record {
  is_graphql_path = true;
  method = get;
  url_query = some "q";
  url_operation_name = "Q";
  url_variables = none;
  body = absent;
  is_graphql_type = false;
}

-- The same query in a body with an envelope is served.
abbrev paid_services : Services ℕ
paid_services = record some_services {
  decode_payload = λ t.
      some (record {
        query = some "q";
        operation_name = "Q";
        variables = none;
        extensions = some "e";
      });
}

abbrev paid_request : Request
paid_request = record a_request { method = post; url_query = none; body = present (some "{}") }

serves_paid :
    wrap paid_services paid_request
    ≡ served 7 (record { status = 200; body = some (("v", array 3) ∷ []) }) (some ("p", 3))
unfolding wrap parse_graphql_request top_level_fields contains collection_names response_keys lookup
serves_paid = refl

wrap-IsAuthorized_example :
    ((response : Response) × (submitted : Option (String × ℕ)) × (wrap paid_services paid_request
        ≡ served 7 response submitted))
    ↔ IsAuthorized paid_services 7 paid_request
wrap-IsAuthorized_example = wrap-IsAuthorized paid_services 7 paid_request refl

-- Without views, the request passes.
abbrev no_views : Services ℕ
no_views = record some_services { is_view = λ name. false }

wrap_passed_example :
    (req : GraphqlRequest) × (fields : List TopLevelField) × (parse_graphql_request
        no_views.decode_payload a_request
      ≡ some req)
    × (top_level_fields (parsed_query no_views req.query) req.operation_name ≡ ok fields)
    × All (λ f. no_views.is_view f.name ≡ false) fields
unfolding wrap parse_graphql_request top_level_fields contains collection_names
wrap_passed_example = wrap_passed no_views a_request refl refl

abbrev a_database : Views.Services ℕ
a_database = record {
  decode_base64 = λ s. none;
  write_wasm = λ i p w. none;
  add_lens = λ v db. (none, db);
  add_view = λ cid query sdl db. (none, db + 1);
  correct_query = λ e query. query;
}

abbrev transfers : View
transfers = record {
  name = "Transfers";
  contract_address = "0x1";
  query = codes "Log {inputData}";
  sdl = codes "type Transfers {}";
  lenses = [];
}

abbrev other_view : View
other_view = record transfers { name = "Blocks" }

abbrev a_manager : Manager ℕ
a_manager = record { active_views = []; metrics = none; database = 0 }

-- The request reads no view of the manager, and passes.
register_view-gates_example :
    (req : GraphqlRequest) × (fields : List TopLevelField) × (parse_graphql_request
        some_services.decode_payload a_request
      ≡ some req)
    × (top_level_fields (parsed_query some_services req.query) req.operation_name ≡ ok fields)
    × All (λ f. f.name ≢ "Transfers") fields
unfolding wrap parse_graphql_request top_level_fields contains collection_names register_view
    validate has_lenses setup_lens_in_defra_db configure_lens is_active contract_address activate
    fix_query_input_data fix_collection_name has_infix lookup insert new_view_registry register_all
register_view-gates_example =
    register_view-gates some_services a_database transfers
      (record transfers { query = codes "Ethereum__Mainnet__Log {input}" }) (other_view ∷ [])
      a_manager a_request refl refl refl
