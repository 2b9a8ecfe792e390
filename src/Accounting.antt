-- ===== src/Accounting.antt =====
-- pkg/accounting: the service record of a served query. The decoder of the envelope, the signatures, hex
-- and HTTP answer through `Accounting`.
pub mod Submitted
mod Tests
use shinzo_host_client.Prelude.{
  ℕ, ◌≤◌, String, Bool, not, ◌&&◌, Option, none, some, List, [], ◌∷◌, ltb, leb, if◌then◌else◌,
}
use shinzo_host_client.Prelude.Results.{Result, ok, err, ◌>>=◌, or_error}

pub record Extensions : Type 0 where
  pub nonce : String
  pub query_hash : String
  pub request_timestamp : ℕ
  pub request_signature : String

pub record RecordInput : Type 0 where
  pub extensions : Extensions
  pub rows_queried : ℕ
  pub attested_indexers : List String

-- What an envelope decodes to: the hash of the query and the pool.
pub record BillingRequest (Hash Pool : Type 0) : Type 0 where
  pub query_hash : Hash
  pub pool : Pool

-- What the host signs.
pub record QueryResponse (Hash Pool Address : Type 0) : Type 0 where
  pub query_hash : Hash
  pub host : Address
  pub pool : Pool
  pub rows_queried : ℕ
  pub responded_at : ℕ
  pub response_cids_hash : Hash

pub record ServiceRecord : Type 0 where
  pub nonce : String
  pub pool_id : String
  pub query_hash : String
  pub host_address : String
  pub request_timestamp : ℕ
  pub request_signature : String
  pub rows_queried : ℕ
  pub responded_at : ℕ
  pub response_cids : List String
  pub response_signature : String
  pub attested_indexers : List String

pub data PostAnswer : Type 0 where
  not_marshalled no_request no_response : PostAnswer
  status : ℕ → PostAnswer

pub data AccountingError : Type 0 where
  decode_extensions marshal_record build_request post_record : AccountingError
  accounting_status : ℕ → AccountingError

pub record Accounting (Hash Pool Address : Type 0) : Type 0 where
  pub request : Extensions → Option (BillingRequest Hash Pool)
  pub sign_query_response : QueryResponse Hash Pool Address → String
  pub response_cids_hash : List String → Hash
  pub pool_hex : Pool → String
  pub address_hex : Address → String
  pub host_address : Address
  pub post : ServiceRecord → PostAnswer

unfoldable pub submitted : PostAnswer → Result AccountingError Unit
submitted not_marshalled = err marshal_record
submitted no_request = err build_request
submitted no_response = err post_record
submitted (status n) =
    if ltb n 200
    then err (accounting_status n)
    else if leb 300 n
    then err (accounting_status n)
    else ok tt

module _ {Hash Pool Address : Type 0} (accounting : Accounting Hash Pool Address) where
  open accounting use {
    request, sign_query_response, response_cids_hash, pool_hex, address_hex, host_address, post,
  }

  unfoldable pub submit : ServiceRecord → Result AccountingError Unit
  unfolding submitted
  submit r = submitted (post r)

  unfoldable pub query_response :
      RecordInput → BillingRequest Hash Pool → ℕ → QueryResponse Hash Pool Address
  query_response input req responded_at = record {
    query_hash = req.query_hash;
    host = host_address;
    pool = req.pool;
    rows_queried = input.rows_queried;
    responded_at = responded_at;
    response_cids_hash = response_cids_hash [];
  }

  unfoldable pub service_record : RecordInput → BillingRequest Hash Pool → ℕ → ServiceRecord
  unfolding query_response
  service_record input req responded_at = record {
    nonce = input.extensions.nonce;
    pool_id = pool_hex req.pool;
    query_hash = input.extensions.query_hash;
    host_address = address_hex host_address;
    request_timestamp = input.extensions.request_timestamp;
    request_signature = input.extensions.request_signature;
    rows_queried = input.rows_queried;
    responded_at = responded_at;
    response_cids = [];
    response_signature = sign_query_response (query_response input req responded_at);
    attested_indexers = input.attested_indexers;
  }

  -- `Record` at a time.
  unfoldable pub record_service : RecordInput → ℕ → Result AccountingError Unit
  unfolding submit service_record
  record_service input responded_at = do
    req ← or_error decode_extensions (request input.extensions)
    submit (service_record input req responded_at)
