-- ===== src/Accounting/Tests.antt =====
-- The submission of a record at a concrete envelope.
use shinzo_host_client.Prelude.{refl, String, some, [], ◌∷◌}
use shinzo_host_client.Accounting.{
  RecordInput, Accounting, status, submitted, submit, service_record, record_service,
}
use shinzo_host_client.Accounting.Submitted.{IsAccepted, record_service-IsAccepted}

abbrev an_accounting : Accounting String String String
an_accounting = record {
  request = λ e. some (record { query_hash = "h"; pool = "p" });
  sign_query_response = λ r. "signed";
  response_cids_hash = λ cids. "none";
  pool_hex = λ pool. pool;
  address_hex = λ address. address;
  host_address = "host";
  post = λ r. status 202;
}

abbrev an_input : RecordInput
an_input = record {
  extensions = record {
    nonce = "n";
    query_hash = "h";
    request_timestamp = 5;
    request_signature = "s";
  };
  rows_queried = 3;
  attested_indexers = "i" ∷ [];
}

record_service-IsAccepted_example : IsAccepted an_accounting an_input 7
unfolding record_service submit submitted service_record
record_service-IsAccepted_example = record_service-IsAccepted an_accounting an_input 7 refl
