-- ===== src/Acp/Gate/Decision.antt =====
-- Which requests middleware.go serves: the billed ones are exactly the authorized ones, and a
-- request that passes unbilled touches no view.
use shinzo_host_client.Prelude.{
  ℕ, ◌≡◌, refl, inl, inr, ◌↔◌, String, Bool, true, false, Option, none, some, List, [], ◌∷◌, nat_eq,
  string_eq, arith, Bool-cases,
}
use shinzo_host_client.Acp.Query.{
  TopLevelField, Result, ok, err, top_level_fields, collection_names,
}
use shinzo_host_client.Acp.Request.{Request, GraphqlRequest, parse_graphql_request}
use shinzo_host_client.Acp.Gate.{
  Extensions, Response, Services, Outcome, served, collect_view_lookups, parse_extensions,
  parsed_query, serve, decide, verified, signed_request, bill, with_fields, handle_parsed,
  handle_graphql, wrap,
}

module _ {Address : Type 0} (services : Services Address) where
  open services use {
    decode_payload, decode_extensions, is_view, contract_address, is_fresh, verify_request,
    is_zero_pool, authorize, next,
  }

  -- What a billed request has shown: one view, with an address, a signed and fresh envelope that
  -- names a pool, and a payer whose balance was found sufficient.
  pub record IsAuthorized (payer : Address) (r : Request) : Type 0 where
    pub request : GraphqlRequest
    pub fields : List TopLevelField
    pub view : String
    pub envelope : Extensions
    pub parses : parse_graphql_request decode_payload r ≡ some request
    pub reads :
        top_level_fields (parsed_query services request.query) request.operation_name ≡ ok fields
    pub touches_one :
        collect_view_lookups is_view contract_address (collection_names fields) ≡ some (view ∷ [])
    pub is_signed : parse_extensions decode_extensions request.extensions ≡ some envelope
    pub fresh : is_fresh envelope.request_timestamp ≡ true
    pub verifies : verify_request request.query request.variables envelope ≡ some payer
    pub names_pool : is_zero_pool envelope.pool_address ≡ false
    pub funded : authorize payer ≡ some true

  abbrev Serves : Address → Outcome Address → Type 0
  Serves payer outcome =
      (response : Response) × (submitted : Option (String × ℕ)) × (outcome
        ≡ served payer response submitted)

  wrap-handle_graphql :
      (r : Request) → r.is_graphql_path ≡ true → wrap services r ≡ handle_graphql services r
  unfolding wrap
  wrap-handle_graphql r graphql = ground arith

  authorized-Serves :
      (payer : Address) (r : Request)
      → IsAuthorized payer r
      → Serves payer (handle_graphql services r)
  unfolding handle_graphql handle_parsed with_fields bill signed_request verified decide serve
  authorized-Serves payer r a =
      rw
        (a.parses, a.reads, a.touches_one, a.is_signed, a.fresh, a.verifies, a.names_pool, a.funded)
        (_, _, refl)

  decide-funded :
      (fields : List TopLevelField) (view : String) (ext : Extensions) (payer payer' : Address)
      (answer : Option Bool)
      → Serves payer (decide services fields view ext payer' answer)
      → (answer ≡ some true) × (payer' ≡ payer)
  unfolding decide serve
  decide-funded fields view ext payer payer' none h = ground arith
  decide-funded fields view ext payer payer' (some false) h = ground arith
  decide-funded fields view ext payer payer' (some true) h = ground arith

  verified-served :
      (fields : List TopLevelField) (view : String) (ext : Extensions) (payer : Address)
      (p : Option Address)
      → Serves payer (verified services fields view ext p)
      → (p ≡ some payer) × (is_zero_pool ext.pool_address ≡ false) × (authorize payer ≡ some true)
  unfolding verified
  verified-served fields view ext payer none h = ground arith
  verified-served fields view ext payer (some q) h =
      elim (Bool-cases (is_zero_pool ext.pool_address)) [
        | inl zero_pool ↦ ground arith
        | inr some_pool ↦
            let d = decide-funded fields view ext payer q (authorize q) (ground arith) in
            ground arith
      ]

  signed-served :
      (req : GraphqlRequest) (fields : List TopLevelField) (view : String) (payer : Address)
      (e : Option Extensions)
      → Serves payer (signed_request services req fields view e)
      → (ext : Extensions) × (e ≡ some ext)
        × (is_fresh ext.request_timestamp ≡ true)
        × (verify_request req.query req.variables ext ≡ some payer)
        × (is_zero_pool ext.pool_address ≡ false)
        × (authorize payer ≡ some true)
  unfolding signed_request
  signed-served req fields view payer none h = ground arith
  signed-served req fields view payer (some ext) h =
      elim (Bool-cases (is_fresh ext.request_timestamp)) [
        | inl fresh ↦
            let (verifies, names_pool, funded) =
              verified-served fields view ext payer (verify_request req.query req.variables ext)
                (ground arith) in
            (ext, refl, fresh, verifies, names_pool, funded)
        | inr stale ↦ ground arith
      ]

  Served-IsAuthorized :
      (payer : Address) (r : Request)
      → Serves payer (handle_graphql services r)
      → IsAuthorized payer r
  unfolding handle_graphql handle_parsed with_fields bill
  Served-IsAuthorized payer r h = parsed (parse_graphql_request decode_payload r) refl h
    where
      billed :
          (req : GraphqlRequest) (fields : List TopLevelField) (views : Option (List String))
          → parse_graphql_request decode_payload r ≡ some req
          → top_level_fields (parsed_query services req.query) req.operation_name ≡ ok fields
          → collect_view_lookups is_view contract_address (collection_names fields) ≡ views
          → Serves payer (bill services req fields views)
          → IsAuthorized payer r
      billed req fields none e f v h = ground arith
      billed req fields (some []) e f v h = ground arith
      billed req fields (some (view ∷ view' ∷ views)) e f v h = ground arith
      billed req fields (some (view ∷ [])) e f v h =
          let (ext, is_signed, fresh, verifies, names_pool, funded) =
            signed-served req fields view payer (parse_extensions decode_extensions req.extensions)
              h in
          record {
            request = req;
            fields = fields;
            view = view;
            envelope = ext;
            parses = e;
            reads = f;
            touches_one = v;
            is_signed = is_signed;
            fresh = fresh;
            verifies = verifies;
            names_pool = names_pool;
            funded = funded;
          }

      read :
          (req : GraphqlRequest) (fields : Result (List TopLevelField))
          → parse_graphql_request decode_payload r ≡ some req
          → top_level_fields (parsed_query services req.query) req.operation_name ≡ fields
          → Serves payer (with_fields services req fields)
          → IsAuthorized payer r
      read req (err x) e f h = ground arith
      read req (ok fields) e f h = billed req fields _ e f refl h

      parsed :
          (req : Option GraphqlRequest)
          → parse_graphql_request decode_payload r ≡ req
          → Serves payer (handle_parsed services req)
          → IsAuthorized payer r
      parsed none e h = ground arith
      parsed (some req) e h = read req _ e refl h

  -- A GraphQL request is served as a payer's exactly if it parses, touches one view
  -- with a contract address, carries a signed and fresh envelope that names a pool and verifies as
  -- that payer's, and the payer's balance is found sufficient.
  pub wrap-IsAuthorized :
      (payer : Address) (r : Request)
      → r.is_graphql_path ≡ true
      → ((response : Response) × (submitted : Option (String × ℕ)) × (wrap services r
            ≡ served payer response submitted))
        ↔ IsAuthorized payer r
  wrap-IsAuthorized payer r graphql =
      rw (wrap-handle_graphql r graphql) (Served-IsAuthorized payer r, authorized-Serves payer r)
