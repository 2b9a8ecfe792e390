-- ===== src/Acp/Request.antt =====
-- pkg/acp/middleware.go: reading a GraphQL request from its URL and body.
use shinzo_host_client.Prelude.{String, Bool, Option, none, some, if◌then◌else◌}

pub data Method : Type 0 where
  get post other : Method

-- A text parameter; `none` is the empty string.
abbrev pub Text : Type 0
Text = Option String

-- What the request's reader yields: no body, an error, or its text.
pub data Body : Type 0 where
  absent unreadable : Body
  present : Text → Body

-- The fields of a JSON body; `none` for one that does not decode.
pub record Payload : Type 0 where
  pub query : Text
  pub operation_name : String
  pub variables : Text
  pub extensions : Text

pub record Request : Type 0 where
  pub is_graphql_path : Bool
  pub method : Method
  pub url_query : Text
  pub url_operation_name : String
  pub url_variables : Text
  pub body : Body
  pub is_graphql_type : Bool  -- the media type is application/graphql

pub record GraphqlRequest : Type 0 where
  pub query : Text
  pub operation_name : String
  pub variables : Text
  pub extensions : Text

empty_request : GraphqlRequest
empty_request = record { query = none; operation_name = ""; variables = none; extensions = none }

decoded : Option Payload → Option GraphqlRequest
decoded none = none
decoded (some p) = some (record {
  query = p.query;
  operation_name = p.operation_name;
  variables = p.variables;
  extensions = p.extensions;
})

parse_body : (Text → Option Payload) → Bool → Body → Option GraphqlRequest
unfolding decoded empty_request
parse_body decode raw absent = some empty_request
parse_body decode raw unreadable = none
parse_body decode raw (present none) = some empty_request
parse_body decode raw (present (some text)) =
    if raw then some (record empty_request { query = some text }) else decoded (decode (some text))

url_request : Text → Request → GraphqlRequest
url_request query r = record {
  query = query;
  operation_name = r.url_operation_name;
  variables = r.url_variables;
  extensions = none;
}

parse_post : (Text → Option Payload) → Request → Text → Option GraphqlRequest
unfolding url_request parse_body
parse_post decode r none = parse_body decode r.is_graphql_type r.body
parse_post decode r (some q) = some (url_request (some q) r)

parse_method : (Text → Option Payload) → Request → Method → Option GraphqlRequest
unfolding parse_post empty_request url_request
parse_method decode r get = some (url_request r.url_query r)
parse_method decode r post = parse_post decode r r.url_query
parse_method decode r other = some empty_request

-- `none` for a body that cannot be read or does not decode.
unfoldable pub parse_graphql_request : (Text → Option Payload) → Request → Option GraphqlRequest
unfolding parse_method
parse_graphql_request decode r = parse_method decode r r.method
