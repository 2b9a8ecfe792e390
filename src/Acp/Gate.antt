-- ===== src/Acp/Gate.antt =====
-- pkg/acp/middleware.go and capture.go: the decision for one request. The services behind it, and
-- the JSON and signature libraries, answer through `Services`.
pub mod Decision
pub mod Unbilled
use shinzo_host_client.Prelude.{
  ℕ, ◌+◌, ◌/◌, ◌%◌, ◌^◌, String, Bool, true, false, not, ◌&&◌, Option, none, some, List, [], ◌∷◌,
  ◌==◌, nat_eq, string_eq, if◌then◌else◌, length, Map, lookup,
}
use shinzo_host_client.Acp.Query.{
  QueryDocument, TopLevelField, Result, ok, err, top_level_fields, collection_names, response_keys,
}
use shinzo_host_client.Acp.Request.{Text, Payload, Request, GraphqlRequest, parse_graphql_request}

-- The decoded billing envelope: its signature is the empty string for `none`.
pub record Extensions : Type 0 where
  pub request_signature : Text
  pub request_timestamp : ℕ
  pub pool_address : String

-- A JSON value under a response key: null, an array of some length, or anything else.
pub data Served : Type 0 where
  null scalar : Served
  array : ℕ → Served

-- The response of the wrapped handler: its status and, if the body decodes, its `data`.
pub record Response : Type 0 where
  pub status : ℕ
  pub body : Option (Map String Served)

pub record Services (Address : Type 0) : Type 0 where
  pub decode_payload : Text → Option Payload
  pub parse_query : String → Option QueryDocument
  pub decode_extensions : String → Option Extensions
  pub is_view : String → Bool
  pub contract_address : String → Option String
  pub is_fresh : ℕ → Bool
  pub verify_request : Text → Text → Extensions → Option Address
  pub is_zero_pool : String → Bool
  pub authorize : Address → Option Bool
  pub next : Response

pub data Outcome (Address : Type 0) : Type 0 where
  passed : Outcome Address  -- to the wrapped handler, unbilled
  rejected : ℕ → Outcome Address  -- with this status
  -- served to the payer, and the record of the rows to submit, if any
  served : Address → Response → Option (String × ℕ) → Outcome Address

add_view : Option String → String → Option (List String) → Option (List String)
add_view none name rest = none
add_view (some address) name none = none
add_view (some address) name (some views) = some (name ∷ views)

is_signed : Text → Bool
is_signed none = false
is_signed (some signature) = true

-- An envelope without a signature is refused.
signed : Option Extensions → Option Extensions
unfolding is_signed
signed none = none
signed (some ext) = if is_signed ext.request_signature then some ext else none

-- `collectViewLookups`: `none` where a view has no contract address.
unfoldable pub collect_view_lookups :
    (String → Bool) → (String → Option String) → List String → Option (List String)
unfolding add_view
collect_view_lookups is_view contract_address [] = some []
collect_view_lookups is_view contract_address (name ∷ names) =
    let rest = collect_view_lookups is_view contract_address names in
    if not (is_view name) then rest else add_view (contract_address name) name rest

-- `parseExtensions`
unfoldable pub parse_extensions : (String → Option Extensions) → Text → Option Extensions
unfolding signed
parse_extensions decode none = none
parse_extensions decode (some raw) = signed (decode raw)

-- The rows of one response key, and whether it was served, added to those so far.
count_key : Option Served → ℕ × Bool → ℕ × Bool
count_key (some (array n)) (rows, was) = ((rows + n) % 2 ^ 64, true)
count_key _ acc = acc

count_keys : Map String Served → List String → ℕ × Bool → ℕ × Bool
unfolding count_key
count_keys response [] acc = acc
count_keys response (key ∷ keys) acc =
    count_keys response keys (count_key (lookup key response) acc)

-- `viewRows`
unfoldable pub view_rows : Option (Map String Served) → List String → ℕ × Bool
unfolding count_keys
view_rows none keys = (0, false)
view_rows (some response) keys = count_keys response keys (0, false)

module _ {Address : Type 0} (services : Services Address) where
  open services use {
    decode_payload, parse_query, decode_extensions, is_view, contract_address, is_fresh,
    verify_request, is_zero_pool, authorize, next,
  }

  -- The capture of the response, and the record to submit.
  serve : List TopLevelField → String → Extensions → Address → Outcome Address
  unfolding view_rows
  serve fields view ext payer =
      let (rows, is_served) = view_rows next.body (response_keys fields view) in
      served payer next
        (if is_served && next.status / 100 == 2 then some (ext.pool_address, rows) else none)

  decide : List TopLevelField → String → Extensions → Address → Option Bool → Outcome Address
  unfolding serve
  decide fields view ext payer none = rejected 503
  decide fields view ext payer (some false) = rejected 402
  decide fields view ext payer (some true) = serve fields view ext payer

  verified : List TopLevelField → String → Extensions → Option Address → Outcome Address
  unfolding decide
  verified fields view ext none = rejected 403
  verified fields view ext (some payer) =
      if is_zero_pool ext.pool_address
      then rejected 403
      else decide fields view ext payer (authorize payer)

  signed_request :
      GraphqlRequest → List TopLevelField → String → Option Extensions → Outcome Address
  unfolding verified
  signed_request req fields view none = rejected 403
  signed_request req fields view (some ext) =
      if not (is_fresh ext.request_timestamp)
      then rejected 403
      else verified fields view ext (verify_request req.query req.variables ext)

  bill : GraphqlRequest → List TopLevelField → Option (List String) → Outcome Address
  unfolding signed_request parse_extensions
  bill req fields none = rejected 503
  bill req fields (some []) = passed
  bill req fields (some (view ∷ [])) =
      signed_request req fields view (parse_extensions decode_extensions req.extensions)
  bill req fields (some (view ∷ view' ∷ views)) = rejected 400

  unfoldable pub parsed_query : Text → Option (Option QueryDocument)
  parsed_query none = none
  parsed_query (some q) = some (parse_query q)

  with_fields : GraphqlRequest → Result (List TopLevelField) → Outcome Address
  unfolding bill collect_view_lookups
  with_fields req (err x) = rejected 400
  with_fields req (ok fields) =
      bill req fields (collect_view_lookups is_view contract_address (collection_names fields))

  handle_parsed : Option GraphqlRequest → Outcome Address
  unfolding with_fields parsed_query
  handle_parsed none = rejected 400
  handle_parsed (some req) =
      with_fields req (top_level_fields (parsed_query req.query) req.operation_name)

  -- `handleGraphQL`
  unfoldable pub handle_graphql : Request → Outcome Address
  unfolding handle_parsed
  handle_graphql r = handle_parsed (parse_graphql_request decode_payload r)

  -- `Wrap`
  unfoldable pub wrap : Request → Outcome Address
  unfolding handle_graphql
  wrap r = if not r.is_graphql_path then passed else handle_graphql r
