-- ===== src/Acp/Registry.antt =====
-- pkg/acp/registry.go: the view manager as the registry of views that the middleware asks, and what
-- the two do together.
use shinzo_host_client.Prelude.{
  ◌≡◌, ◌≢◌, String, Bool, true, false, some, List, [], ◌∷◌, arith, All,
}
use shinzo_host_client.Prelude.Results as Results
use shinzo_host_client.Acp.Query.{TopLevelField, ok, top_level_fields}
use shinzo_host_client.Acp.Request.{Request, GraphqlRequest, parse_graphql_request}
use shinzo_host_client.Acp.Gate.{Services, passed, parsed_query, wrap}
use shinzo_host_client.Acp.Gate.Unbilled.{wrap_passed}
use shinzo_host_client.Views as Views
use shinzo_host_client.Views.{View}
use shinzo_host_client.Views.Manager.{
  Manager, is_active, contract_address, register_view, register_all,
}
use shinzo_host_client.Views.Manager.Lasting.{register_view-active, register_all-keeps}

-- `NewViewRegistry`: the services of the middleware, whose registry is the view manager.
unfoldable pub new_view_registry :
    {Address Database : Type 0} → Manager Database → Services Address → Services Address
new_view_registry m services = record services {
  is_view = λ name. is_active name m;
  contract_address = λ name. contract_address name m;
}

All-unnamed :
    (is_view : String → Bool) (name : String)
    → is_view name ≡ true
    → (fields : List TopLevelField) → All (λ f. is_view f.name ≡ false) fields
    → All (λ f. f.name ≢ name) fields
All-unnamed is_view name viewed [] h = tt
All-unnamed is_view name viewed (f ∷ fields) (unviewed, h) = (
  λ same. absurd (ground (arith, viewed, unviewed, same)),
  All-unnamed is_view name viewed fields h,
)

module _ {Address Database : Type 0} (services : Services Address)
    (view_services : Views.Services Database) where
  -- The middleware when some views were registered behind a view.
  abbrev pub gated : View → List View → Manager Database → Services Address
  gated v later m =
      new_view_registry (register_all view_services later (register_view view_services v m).1)
        services

  -- Once a view has been registered without an error, and whatever views are registered after it, a
  -- GraphQL request that passes unbilled parses, and no top-level field that its query reads has the
  -- name of that view.
  pub register_view-gates :
      (v w : View) (later : List View) (m : Manager Database) (r : Request)
      → (register_view view_services v m).0 ≡ Results.ok w
      → r.is_graphql_path ≡ true
      → wrap (gated v later m) r ≡ passed
      → (req : GraphqlRequest) × (fields : List TopLevelField) × (parse_graphql_request
            services.decode_payload r
          ≡ some req)
        × (top_level_fields (parsed_query services req.query) req.operation_name ≡ ok fields)
        × All (λ f. f.name ≢ v.name) fields
  unfolding new_view_registry parsed_query
  register_view-gates v w later m r registered graphql h =
      let then = (register_view view_services v m).1 in
      let active =
        register_all-keeps view_services later v.name then
          (register_view-active view_services v w m registered) in
      let (req, fields, parsed, walked, unviewed) = wrap_passed (gated v later m) r graphql h in
      (
        req,
        fields,
        parsed,
        walked,
        All-unnamed (gated v later m).is_view v.name active fields unviewed,
      )
