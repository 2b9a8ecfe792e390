-- ===== src/Acp/Gate/Unbilled.antt =====
-- Which requests middleware.go passes on unbilled, and the rows that it counts for a billed one.
use shinzo_host_client.Prelude.{
  ℕ, ◌+◌, ◌%◌, ◌^◌, ◌<◌, ◌≡◌, ◌≢◌, refl, inl, inr, String, Bool, true, false, Option, none, some,
  List, [], ◌∷◌, ◌==◌, string_eq, Map, lookup, arith, All, Bool-cases, contains, ==_iff,
}
use shinzo_host_client.Acp.Query.{
  TopLevelField, Result, ok, err, top_level_fields, collection_names, names_from,
}
use shinzo_host_client.Acp.Request.{Request, GraphqlRequest, parse_graphql_request}
use shinzo_host_client.Acp.Gate.{
  Extensions, Served, null, scalar, array, Services, passed, collect_view_lookups, add_view,
  parse_extensions, count_keys, count_key, view_rows, parsed_query, serve, decide, verified,
  signed_request, bill, with_fields, handle_parsed, handle_graphql, wrap,
}
use mathlib.Core.Path.{subst}

module _ (is_view : String → Bool) where
  abbrev IsUnviewed : String → Type 0
  IsUnviewed name = is_view name ≡ false

  collected_none :
      (contract_address : String → Option String) (names : List String)
      → collect_view_lookups is_view contract_address names ≡ some []
      → All IsUnviewed names
  unfolding collect_view_lookups add_view
  collected_none contract_address [] h = tt
  collected_none contract_address (name ∷ names) h = elim (Bool-cases (is_view name)) [
    | inl viewed ↦ absurd (
        no_view (contract_address name) (collect_view_lookups is_view contract_address names)
          (ground arith))
    | inr unviewed ↦ (unviewed, collected_none contract_address names (ground arith))
  ]
    where
      no_view :
          (address : Option String) (rest : Option (List String))
          → add_view address name rest ≡ some []
          → ⊥
      no_view none rest e = ground arith
      no_view (some a) none e = ground arith
      no_view (some a) (some views) e = ground arith

  names_from-All :
      (seen : List String) (fields : List TopLevelField)
      → ((name : String) → contains seen name ≡ true → IsUnviewed name)
      → All IsUnviewed (names_from seen fields)
      → All (λ f. IsUnviewed f.name) fields
  unfolding names_from contains
  names_from-All seen [] known h = tt
  names_from-All seen (f ∷ fields) known h = elim (Bool-cases (contains seen f.name)) [
    | inl old ↦
        let skipped : names_from seen (f ∷ fields) ≡ names_from seen fields = ground arith in
        (known f.name old, names_from-All seen fields known (rw (← skipped) h))
    | inr new ↦
        let taken : names_from seen (f ∷ fields) ≡ f.name ∷ names_from (f.name ∷ seen) fields =
          ground arith in
        let (unviewed, rest) : All IsUnviewed (f.name ∷ names_from (f.name ∷ seen) fields) =
          subst (All IsUnviewed) taken h in
        (unviewed, names_from-All (f.name ∷ seen) fields (widen unviewed) rest)
  ]
    where
      widen :
          IsUnviewed f.name
          → (name : String) → contains (f.name ∷ seen) name ≡ true
          → IsUnviewed name
      widen u name c = elim (Bool-cases (f.name == name)) [
        | inl same ↦ rw (← (==_iff f.name name).0 same) u
        | inr other ↦ known name (ground arith)
      ]

module _ {Address : Type 0} (services : Services Address) where
  open services use {
    decode_payload, is_view, contract_address, authorize, is_zero_pool, verify_request, is_fresh,
    decode_extensions,
  }

  -- The outcomes of a request that touches a view are not `passed`.
  decide-not_passed :
      (fields : List TopLevelField) (view : String) (ext : Extensions) (payer : Address)
      (answer : Option Bool)
      → decide services fields view ext payer answer ≢ passed
  unfolding decide serve
  decide-not_passed fields view ext payer none h = ground arith
  decide-not_passed fields view ext payer (some true) h = ground arith
  decide-not_passed fields view ext payer (some false) h = ground arith

  verified-not_passed :
      (fields : List TopLevelField) (view : String) (ext : Extensions) (p : Option Address)
      → verified services fields view ext p ≢ passed
  unfolding verified
  verified-not_passed fields view ext none h = ground arith
  verified-not_passed fields view ext (some payer) h =
      ground (arith, decide-not_passed fields view ext payer (authorize payer))

  signed_request-not_passed :
      (req : GraphqlRequest) (fields : List TopLevelField) (view : String) (e : Option Extensions)
      → signed_request services req fields view e ≢ passed
  unfolding signed_request
  signed_request-not_passed req fields view none h = ground arith
  signed_request-not_passed req fields view (some ext) h =
      ground
        (arith, verified-not_passed fields view ext (verify_request req.query req.variables ext))

  bill_passed :
      (req : GraphqlRequest) (fields : List TopLevelField) (views : Option (List String))
      → bill services req fields views ≡ passed
      → views ≡ some []
  unfolding bill
  bill_passed req fields none h = ground arith
  bill_passed req fields (some []) h = refl
  bill_passed req fields (some (view ∷ [])) h = absurd (
      signed_request-not_passed req fields view (parse_extensions decode_extensions req.extensions)
        h)
  bill_passed req fields (some (view ∷ view' ∷ views)) h = ground arith

  -- A GraphQL request that passes unbilled parses, and none of the top-level fields that its query
  -- reads names a view.
  pub wrap_passed :
      (r : Request)
      → r.is_graphql_path ≡ true
      → wrap services r ≡ passed
      → (req : GraphqlRequest) × (fields : List TopLevelField) × (parse_graphql_request
            decode_payload r
          ≡ some req)
        × (top_level_fields (parsed_query services req.query) req.operation_name ≡ ok fields)
        × All (λ f. is_view f.name ≡ false) fields
  unfolding wrap handle_graphql handle_parsed with_fields collection_names
  wrap_passed r graphql h = parsed (parse_graphql_request decode_payload r) refl (ground arith)
    where
      Unviewed : Type 0
      Unviewed =
          (req : GraphqlRequest) × (fields : List TopLevelField) × (parse_graphql_request
              decode_payload r
            ≡ some req)
          × (top_level_fields (parsed_query services req.query) req.operation_name ≡ ok fields)
          × All (λ f. is_view f.name ≡ false) fields

      read :
          (req : GraphqlRequest) (fields : Result (List TopLevelField))
          → parse_graphql_request decode_payload r ≡ some req
          → top_level_fields (parsed_query services req.query) req.operation_name ≡ fields
          → with_fields services req fields ≡ passed
          → Unviewed
      read req (err x) e f k = ground arith
      read req (ok fields) e f k = (
        req,
        fields,
        e,
        f,
        names_from-All is_view [] fields (λ name c. unfold contains in ground arith)
            (collected_none is_view contract_address (names_from [] fields) (
              bill_passed req fields
                (collect_view_lookups is_view contract_address (names_from [] fields)) k)),
      )

      parsed :
          (req : Option GraphqlRequest)
          → parse_graphql_request decode_payload r ≡ req
          → handle_parsed services req ≡ passed
          → Unviewed
      parsed none e k = ground arith
      parsed (some req) e k = read req _ e refl k

-- The rows that a response holds under some keys: the lengths of the arrays found there.
abbrev pub rows_of : Option Served → ℕ
rows_of none = 0
rows_of (some null) = 0
rows_of (some scalar) = 0
rows_of (some (array n)) = n

abbrev pub total_rows : Map String Served → List String → ℕ
total_rows response [] = 0
total_rows response (key ∷ keys) = rows_of (lookup key response) + total_rows response keys

count_keys-total :
    (response : Map String Served) (keys : List String) (rows : ℕ) (was : Bool)
    → rows < 2 ^ 64
    → (count_keys response keys (rows, was)).0 ≡ (rows + total_rows response keys) % 2 ^ 64
unfolding count_keys
count_keys-total response [] rows was h = omega (arith, h)
count_keys-total response (key ∷ keys) rows was h =
    step (lookup key response) (count_keys-total response keys)
  where
    step :
        (value : Option Served)
        → ((sum : ℕ) (b : Bool)
            → sum < 2 ^ 64
            → (count_keys response keys (sum, b)).0 ≡ (sum + total_rows response keys) % 2 ^ 64)
        → (count_keys response keys (count_key value (rows, was))).0
          ≡ (rows + (rows_of value + total_rows response keys)) % 2 ^ 64
    step none rest = unfold count_key in omega (arith, rest rows was h)
    step (some null) rest = unfold count_key in omega (arith, rest rows was h)
    step (some scalar) rest = unfold count_key in omega (arith, rest rows was h)
    step (some (array n)) rest =
        unfold count_key in omega (arith, rest ((rows + n) % 2 ^ 64) true (omega arith))

-- The rows counted for a response are the total length of the arrays under the keys, modulo 2^64;
-- a body that does not decode counts none.
pub view_rows-total :
    (body : Option (Map String Served)) (keys : List String)
    → (view_rows body keys).0
      ≡ elim body [ none ↦ 0 | some response ↦ total_rows response keys % 2 ^ 64 ]
unfolding view_rows
view_rows-total none keys = refl
view_rows-total (some response) keys =
    omega (arith, count_keys-total response keys 0 false (omega arith))
