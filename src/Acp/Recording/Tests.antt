-- ===== src/Acp/Recording/Tests.antt =====
-- A run of the background records: a billed request, its record started and ended.
use shinzo_host_client.Prelude.{
  ℕ, contains, lookup, ◌+◌, ◌≤◌, ◌≡◌, refl, Bool, true, false, none, some, [], ◌∷◌, ◌++◌, ◌==◌,
  string_eq, length, count_p,
}
use shinzo_host_client.Acp.Query.{
  cons, field, nil, top_level_fields, collection_names, response_keys,
}
use shinzo_host_client.Acp.Request.{Request, post, present, parse_graphql_request}
use shinzo_host_client.Acp.Gate.{Services, array, wrap}
use shinzo_host_client.Acp.Recording.{
  Job, record_panicked, Records, new_records, acquire, release, drains, jobs_of, handle_request,
}
use shinzo_host_client.Acp.Recording.Conserved.{
  Reach, fresh, handled, acquired, released, ended_jobs, Reach-Conserved,
}
use shinzo_host_client.Acp.Recording.Drained.{Steps, endings, Reach-drains}

abbrev billing : Services ℕ
billing = record {
  decode_payload = λ t.
      some (record {
        query = some "q";
        operation_name = "Q";
        variables = none;
        extensions = some "e";
      });
  parse_query = λ q. some (record {
    operations = record { name = "Q"; selection_set = cons (field "v" "View" nil) nil } ∷ [];
    fragment = λ name. none;
  });
  decode_extensions = λ t.
      some (record { request_signature = some "s"; request_timestamp = 5; pool_address = "p" });
  is_view = λ name. name == "View";
  contract_address = λ name. some "0x1";
  is_fresh = λ t. true;
  verify_request = λ q v e. some 7;
  is_zero_pool = λ p. false;
  authorize = λ payer. some true;
  next = record { status = 200; body = some (("v", array 3) ∷ []) };
}

abbrev a_query : Request
a_query = record {
  is_graphql_path = true;
  method = post;
  url_query = none;
  url_operation_name = "";
  url_variables = none;
  body = present (some "{}");
  is_graphql_type = false;
}

abbrev a_run : Records
a_run =
    release 0 record_panicked
      (acquire (handle_request billing a_query (handle_request billing a_query new_records)))

a_run-Reach :
    Reach
      (λ n. billing)
      (jobs_of (wrap billing a_query) ++ (jobs_of (wrap billing a_query) ++ []))
      a_run
a_run-Reach = released 0 record_panicked (acquired (handled 1 a_query (handled 0 a_query fresh)))

Reach-Conserved_example :
    ((p : Job → Bool)
      → count_p p (jobs_of (wrap billing a_query) ++ (jobs_of (wrap billing a_query) ++ []))
        ≡ count_p p a_run.waiting + count_p p a_run.running + count_p p (ended_jobs a_run))
    × (length a_run.running ≤ 64)
Reach-Conserved_example =
    Reach-Conserved (λ n. billing)
      (jobs_of (wrap billing a_query) ++ (jobs_of (wrap billing a_query) ++ [])) a_run a_run-Reach

-- One record waits after the run; it panics.
Reach-drains_example :
    (t : Records) × Steps (record_panicked ∷ []) a_run t
    × (drains false t ≡ true)
    × (endings t ≡ endings a_run ++ record_panicked ∷ [])
    × ((p : Job → Bool)
        → count_p p (jobs_of (wrap billing a_query) ++ (jobs_of (wrap billing a_query) ++ []))
          ≡ count_p p (ended_jobs t))
unfolding release acquire handle_request parse_graphql_request top_level_fields contains
    collection_names response_keys lookup new_records
Reach-drains_example =
    Reach-drains (λ n. billing)
      (jobs_of (wrap billing a_query) ++ (jobs_of (wrap billing a_query) ++ [])) a_run
      (record_panicked ∷ []) a_run-Reach refl
