-- ===== src/Acp/Query/Returns.antt =====
-- When the walk returns fields rather than an error.
use shinzo_host_client.Prelude.{
  ℕ, suc, ◌≡◌, refl, String, Bool, true, false, ◌||◌, Option, some, List, [], ◌∷◌, ◌==◌, string_eq,
  if◌then◌else◌, contains, All,
}
use shinzo_host_client.Acp.Query.{
  Result, ok, ◌>>=◌, Selections, nil, cons, field, inline_fragment, fragment_spread, Operation,
  QueryDocument, TopLevelField, Found, join, collect_top_level_fields, operations_fields,
  top_level_fields, max_fragment_depth,
}

-- Selections that nest fragments at most `left` levels deep, counting their own; every spread names
-- a declared fragment, and none that it stands in.
pub data Fits (fragment : String → Option Selections) : ℕ → List String → Selections → Type 0 where
  done : {left : ℕ} {visited : List String} → Fits fragment (suc left) visited nil
  over_field :
      {left : ℕ} {visited : List String} {alias name : String} {sub rest : Selections}
      → Fits fragment (suc left) visited rest
      → Fits fragment (suc left) visited (cons (field alias name sub) rest)
  over_inline :
      {left : ℕ} {visited : List String} {body rest : Selections}
      → Fits fragment left visited body
      → Fits fragment (suc left) visited rest
      → Fits fragment (suc left) visited (cons (inline_fragment body) rest)
  over_spread :
      {left : ℕ} {visited : List String} {name : String} {body rest : Selections}
      → contains visited name ≡ false
      → fragment name ≡ some body
      → Fits fragment left (name ∷ visited) body
      → Fits fragment (suc left) visited rest
      → Fits fragment (suc left) visited (cons (fragment_spread name) rest)

abbrev Returns {ℓ} : {A : Type ℓ} → Result A → Type ℓ
Returns {A = A} r = (a : A) × (r ≡ ok a)

Returns-then :
    (r : Result Found) (next : List String → Result Found)
    → Returns r
    → ((seen : List String) → Returns (next seen))
    → Returns (r >>= λ (found : Found). next found.1 >>= λ more. ok (join found.0 more))
Returns-then r next ((fields, seen), e) h =
    let (more, e') = h seen in (join fields more, rw (e, e'))

module _ (fragment : String → Option Selections) where
  collect-Returns :
      {left : ℕ} {visited : List String} {sels : Selections}
      → Fits fragment left visited sels
      → (seen : List String) → Returns (collect_top_level_fields fragment left visited sels seen)
  unfolding collect_top_level_fields
  collect-Returns done seen = (([], seen), refl)
  collect-Returns (over_field {alias = alias} {name = name} f) seen =
      Returns-then _ _ (one (contains seen alias)) (collect-Returns f)
    where
      one :
          (b : Bool)
          → Returns {A = Found} (
              if b
              then ok ([], seen)
              else ok (record { response_key = alias; name = name } ∷ [], alias ∷ seen))
      one true = (_, refl)
      one false = (_, refl)
  collect-Returns (over_inline f g) seen =
      Returns-then _ _ (collect-Returns f seen) (collect-Returns g)
  collect-Returns (over_spread new declared f g) seen =
      Returns-then _ _ (rw (new, declared) (collect-Returns f seen)) (collect-Returns g)

  operations-Returns :
      (operation_name : String) (ops : List Operation) (seen : List String)
      → All (λ op. Fits fragment (suc max_fragment_depth) [] op.selection_set) ops
      → Returns (operations_fields fragment operation_name ops seen)
  unfolding operations_fields
  operations-Returns operation_name [] seen h = (([], seen), refl)
  operations-Returns operation_name (op ∷ ops) seen h =
      Returns-then _ (λ seen'. operations_fields fragment operation_name ops seen')
        (selected (operation_name == "" || op.name == operation_name))
        (λ seen'. operations-Returns operation_name ops seen' h.1)
    where
      selected :
          (b : Bool)
          → Returns (
              if b
              then collect_top_level_fields fragment
                  (suc max_fragment_depth)
                  []
                  op.selection_set
                  seen
              else ok ([], seen))
      selected true = collect-Returns h.0 seen
      selected false = (_, refl)

-- The walk returns fields whenever no operation nests fragments more than 16 deep, every spread
-- names a declared fragment, and no fragment contains itself.
pub top_level_fields-Returns :
    (doc : QueryDocument) (operation_name : String)
    → All (λ op. Fits doc.fragment 17 [] op.selection_set) doc.operations
    → (fields : List TopLevelField) × (top_level_fields (some (some doc)) operation_name
        ≡ ok fields)
unfolding top_level_fields
top_level_fields-Returns doc operation_name h =
    let (found, e) = operations-Returns doc.fragment operation_name doc.operations [] h in
    (found.0, rw e)
