-- ===== src/Acp/Query/Complete.antt =====
-- No top-level field escapes the walk, however deep in fragments it stands.
use shinzo_host_client.Prelude.{
  ℕ, zero, suc, ◌≡◌, refl, ap, String, true, false, ◌||◌, Option, some, List, [], ◌∷◌, map, ◌==◌,
  string_eq, ==_refl, if◌then◌else◌, contains, arith, Bool-cases, inl, inr,
}
use shinzo_host_client.Acp.Query.{
  Result, ok, err, ◌>>=◌, Selection, Selections, cons, field, inline_fragment, fragment_spread,
  Operation, QueryDocument, TopLevelField, Found, Walk, join, enter_fragment, collect_one,
  collect_all, collect_top_level_fields, operations_fields, top_level_fields, max_fragment_depth,
}
use shinzo_host_client.Acp.Query.Keys.{
  push_keys, Grows, WalkGrows, Ensures, collect_top_level_fields-Grows, operations_fields-Grows,
  collect_all-Grows,
}

-- A response key stands at the top level of a selection set, or in a fragment used there.
pub data Reaches (fragment : String → Option Selections) (key : String) : Selections → Type 0 where
  here :
      {name : String} {sub rest : Selections}
      → Reaches fragment key (cons (field key name sub) rest)
  inside :
      {sels rest : Selections}
      → Reaches fragment key sels
      → Reaches fragment key (cons (inline_fragment sels) rest)
  spread :
      {name : String} {sels rest : Selections}
      → fragment name ≡ some sels
      → Reaches fragment key sels
      → Reaches fragment key (cons (fragment_spread name) rest)
  later :
      {sel : Selection} {rest : Selections}
      → Reaches fragment key rest
      → Reaches fragment key (cons sel rest)

push_keys-contains :
    (fields : List TopLevelField) (seen : List String) (k : String)
    → contains (push_keys fields seen) k
      ≡ (contains (map (λ f. f.response_key) fields) k || contains seen k)
unfolding push_keys contains
push_keys-contains [] seen k = refl
push_keys-contains (f ∷ fields) seen k =
    ground (arith, push_keys-contains fields (f.response_key ∷ seen) k)

-- Keys once seen stay seen.
Grows-keeps :
    (seen : List String) (found : Found) (k : String)
    → Grows seen found
    → contains seen k ≡ true
    → contains found.1 k ≡ true
Grows-keeps seen found k g h = rw g.keys (ground (arith, push_keys-contains found.0 seen k))

module _ (fragment : String → Option Selections) (key : String) where
  abbrev Sees : Found → Type 0
  Sees found = contains found.1 key ≡ true

  abbrev Completes : Walk → Type 0
  Completes walk =
      (visited : List String) (sels : Selections) (seen : List String)
      → Reaches fragment key sels
      → Ensures Sees (walk visited sels seen)

  -- A key is found by the first part, or by the rest.
  first_Sees :
      (seen : List String) (r : Result Found) (next : List String → Result Found)
      → ((seen' : List String) → Ensures (Grows seen') (next seen'))
      → Ensures Sees r
      → Ensures Sees (r >>= λ (found : Found). next found.1 >>= λ more. ok (join found.0 more))
  first_Sees seen (err e) next g h = tt
  first_Sees seen (ok (fields, seen')) next g h = go (next seen') (g seen')
    where
      go :
          (r : Result Found)
          → Ensures (Grows seen') r
          → Ensures Sees (r >>= λ more. ok (join fields more))
      go (err e) g' = tt
      go (ok (more, last)) g' = unfold join in Grows-keeps seen' (more, last) key g' h

  rest_Sees :
      (r : Result Found) (next : List String → Result Found)
      → ((seen' : List String) → Ensures Sees (next seen'))
      → Ensures Sees (r >>= λ (found : Found). next found.1 >>= λ more. ok (join found.0 more))
  rest_Sees (err e) next h = tt
  rest_Sees (ok (fields, seen')) next h = go (next seen') (h seen')
    where
      go : (r : Result Found) → Ensures Sees r → Ensures Sees (r >>= λ more. ok (join fields more))
      go (err e) h' = tt
      go (ok (more, last)) h' = unfold join in h'

  field_Sees :
      (nested : Walk) (visited : List String) (name : String) (sub : Selections)
      (seen : List String)
      → Ensures Sees (collect_one fragment nested visited (field key name sub) seen)
  unfolding collect_one contains
  field_Sees nested visited name sub seen = elim (Bool-cases (contains seen key)) [
    | inl dup ↦ rw dup dup
    | inr new ↦ rw new (rw ==_refl refl)
  ]

  spread_Sees :
      (nested : Walk) (visited : List String) (name : String) (sels : Selections)
      (seen : List String)
      → Completes nested
      → fragment name ≡ some sels
      → Reaches fragment key sels
      → Ensures Sees (collect_one fragment nested visited (fragment_spread name) seen)
  unfolding collect_one
  spread_Sees nested visited name sels seen c e r = elim (Bool-cases (contains visited name)) [
    | inl cycle ↦ rw cycle tt
    | inr new ↦ rw (new, e, enter_fragment) (c (name ∷ visited) sels seen r)
  ]

  collect_all-Completes :
      (nested : Walk)
      → WalkGrows nested
      → Completes nested
      → Completes (collect_all fragment nested)
  unfolding collect_all
  collect_all-Completes nested g c visited sels seen
        (here {name = name} {sub = sub} {rest = rest}) =
      first_Sees seen (collect_one fragment nested visited (field key name sub) seen)
        (λ seen'. collect_all fragment nested visited rest seen')
        (λ seen'. collect_all-Grows fragment nested g visited rest seen')
        (field_Sees nested visited name sub seen)
  collect_all-Completes nested g c visited sels seen (inside {sels = body} {rest = rest} r) =
      first_Sees seen (nested visited body seen)
        (λ seen'. collect_all fragment nested visited rest seen')
        (λ seen'. collect_all-Grows fragment nested g visited rest seen') (c visited body seen r)
  collect_all-Completes nested g c visited sels seen
        (spread {name = name} {sels = body} {rest = rest} e r) =
      first_Sees seen (collect_one fragment nested visited (fragment_spread name) seen)
        (λ seen'. collect_all fragment nested visited rest seen')
        (λ seen'. collect_all-Grows fragment nested g visited rest seen')
        (spread_Sees nested visited name body seen c e r)
  collect_all-Completes nested g c visited sels seen (later {sel = sel} {rest = rest} r) =
      rest_Sees (collect_one fragment nested visited sel seen)
        (λ seen'. collect_all fragment nested visited rest seen')
        (λ seen'. collect_all-Completes nested g c visited rest seen' r)

  collect-Completes : (left : ℕ) → Completes (collect_top_level_fields fragment left)
  unfolding collect_top_level_fields
  collect-Completes zero visited sels seen r = tt
  collect-Completes (suc left) visited sels seen r =
      collect_all-Completes (collect_top_level_fields fragment left)
        (collect_top_level_fields-Grows fragment left) (collect-Completes left) visited sels seen r

  -- The operations that a request runs: all, or those of its operation name.
  pub data Runs (operation_name : String) : List Operation → Type 0 where
    this :
        {op : Operation} {rest : List Operation}
        → (operation_name == "" || op.name == operation_name) ≡ true
        → Reaches fragment key op.selection_set
        → Runs operation_name (op ∷ rest)
    next :
        {op : Operation} {rest : List Operation}
        → Runs operation_name rest
        → Runs operation_name (op ∷ rest)

  operations-Completes :
      (operation_name : String) (ops : List Operation) (seen : List String)
      → Runs operation_name ops
      → Ensures Sees (operations_fields fragment operation_name ops seen)
  unfolding operations_fields
  operations-Completes operation_name ops seen (this {op = op} {rest = rest} e r) = rw e (
      first_Sees seen
        (collect_top_level_fields fragment (suc max_fragment_depth) [] op.selection_set seen)
        (λ seen'. operations_fields fragment operation_name rest seen')
        (λ seen'. operations_fields-Grows fragment operation_name rest seen')
        (collect-Completes (suc max_fragment_depth) [] op.selection_set seen r))
  operations-Completes operation_name ops seen (next {op = op} {rest = rest} r) =
      rest_Sees
        (if operation_name == "" || op.name == operation_name
          then collect_top_level_fields fragment (suc max_fragment_depth) [] op.selection_set seen
          else ok ([], seen))
        (λ seen'. operations_fields fragment operation_name rest seen')
        (λ seen'. operations-Completes operation_name rest seen' r)

-- If the walk of a parsed query returns, every response key that stands at the top level of an
-- operation that the request runs, or in fragments used there at any depth, is the key of a
-- returned field.
pub top_level_fields-Reaches :
    (doc : QueryDocument) (operation_name key : String)
    → Runs doc.fragment key operation_name doc.operations
    → Ensures
        (λ fields. contains (map (λ f. f.response_key) fields) key ≡ true)
        (top_level_fields (some (some doc)) operation_name)
unfolding top_level_fields
top_level_fields-Reaches doc operation_name key r =
    go (operations_fields doc.fragment operation_name doc.operations [])
      (operations_fields-Grows doc.fragment operation_name doc.operations [])
      (operations-Completes doc.fragment key operation_name doc.operations [] r)
  where
    go :
        (r : Result Found)
        → Ensures (Grows []) r
        → Ensures (Sees doc.fragment key) r
        → Ensures
            (λ fields. contains (map (λ f. f.response_key) fields) key ≡ true)
            (r >>= λ (found : Found). ok found.0)
    go (err e) g h = tt
    go (ok (fields, seen)) g h =
        let k : contains seen key ≡ contains (push_keys fields []) key =
          ap (λ l. contains l key) g.keys in
        ground (arith, push_keys-contains fields [] key, unfolded key)
      where
        unfolded : (k : String) → contains [] k ≡ false
        unfolded k = unfold contains in refl
