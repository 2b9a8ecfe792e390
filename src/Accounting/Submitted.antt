-- ===== src/Accounting/Submitted.antt =====
-- When a record is submitted, and what it says: recorder.go and client.go.
use shinzo_host_client.Prelude.{ℕ, ◌≤◌, ◌<◌, ◌≡◌, refl, Option, none, some, arith}
use shinzo_host_client.Prelude.Results.{ok, or_error, ◌>>=◌}
use shinzo_host_client.Accounting.{
  RecordInput, BillingRequest, QueryResponse, ServiceRecord, PostAnswer, not_marshalled, no_request,
  no_response, status, AccountingError, Accounting, submitted, submit, query_response,
  service_record, record_service,
}

module _ {Hash Pool Address : Type 0} (accounting : Accounting Hash Pool Address) where
  open accounting use {request, sign_query_response, pool_hex, address_hex, host_address, post}

  -- A record that the accounting service took: the host signed the pool that the payer signed, the rows
  -- and the time that the record gives, under the address that it gives.
  pub record IsAccepted (input : RecordInput) (responded_at : ℕ) : Type 0 where
    pub req : BillingRequest Hash Pool
    pub decodes : request input.extensions ≡ some req
    pub posted : ServiceRecord
    pub signed : QueryResponse Hash Pool Address
    pub signature : posted.response_signature ≡ sign_query_response signed
    pub pool : (signed.pool ≡ req.pool) × (posted.pool_id ≡ pool_hex signed.pool)
    pub host : posted.host_address ≡ address_hex signed.host
    pub rows :
        (signed.rows_queried ≡ input.rows_queried) × (posted.rows_queried ≡ signed.rows_queried)
    pub time : (signed.responded_at ≡ responded_at) × (posted.responded_at ≡ signed.responded_at)
    pub code : ℕ
    pub answer : post posted ≡ status code
    pub success : (200 ≤ code) × (code < 300)

  submitted-status :
      (a : PostAnswer) → submitted a ≡ ok tt → (n : ℕ) × (a ≡ status n) × ((200 ≤ n) × (n < 300))
  unfolding submitted
  submitted-status not_marshalled h = ground (arith, h)
  submitted-status no_request h = ground (arith, h)
  submitted-status no_response h = ground (arith, h)
  submitted-status (status n) h = (n, refl, (ground (arith, h), ground (arith, h)))

  -- If a service record is submitted without an error, then its envelope decodes, the accounting service
  -- answered with a status from 200 to 299, and the host's signature on the record is over the pool
  -- that the payer signed, and over the rows, the time and the host's address that the record gives.
  pub record_service-IsAccepted :
      (input : RecordInput) (responded_at : ℕ)
      → record_service accounting input responded_at ≡ ok tt
      → IsAccepted input responded_at
  unfolding record_service submit service_record query_response
  record_service-IsAccepted input responded_at h = go (request input.extensions) refl h
    where
      go :
          (r : Option (BillingRequest Hash Pool))
          → request input.extensions ≡ r
          → (or_error AccountingError.decode_extensions r >>= λ req.
              submitted (post (service_record accounting input req responded_at)))
            ≡ ok tt
          → IsAccepted input responded_at
      go none e k = ground (arith, k)
      go (some req) e k =
          let sent = service_record accounting input req responded_at in
          let (n, answered, in_range) = submitted-status (post sent) k in
          record {
            req = req;
            decodes = e;
            posted = sent;
            signed = query_response accounting input req responded_at;
            signature = refl;
            pool = (refl, refl);
            host = refl;
            rows = (refl, refl);
            time = (refl, refl);
            code = n;
            answer = answered;
            success = in_range;
          }
