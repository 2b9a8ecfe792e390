-- ===== src/Acp/Query.antt =====
-- pkg/acp/parser.go: the top-level fields of a GraphQL operation. The parser is a library: what it
-- returns, a document of operations and fragments, is the input here.
pub mod Keys
pub mod Complete
pub mod Returns
use shinzo_host_client.Prelude.{
  ℕ, zero, suc, String, Bool, ◌||◌, Option, none, some, List, [], ◌∷◌, ◌++◌, ◌==◌, string_eq,
  if◌then◌else◌, contains,
}

pub data Error : Type 0 where
  malformed depth_exceeded : Error
  fragment_cycle undeclared_fragment : String → Error

pub data Result {ℓ} (A : Type ℓ) : Type ℓ where
  ok : A → Result A
  err : Error → Result A

infixl 5 ◌>>=◌
abbrev pub ◌>>=◌ {ℓ κ} : {A : Type ℓ} {B : Type κ} → Result A → (A → Result B) → Result B
ok a >>= f = f a
err e >>= f = err e

-- A field has its alias (the parser's default is the name), its name and its own selections.
mutual
  pub data Selection : Type 0 where
    field : String → String → Selections → Selection
    inline_fragment : Selections → Selection
    fragment_spread : String → Selection

  pub data Selections : Type 0 where
    nil : Selections
    cons : Selection → Selections → Selections

pub record Operation : Type 0 where
  pub name : String
  pub selection_set : Selections

pub record QueryDocument : Type 0 where
  pub operations : List Operation
  pub fragment : String → Option Selections

pub record TopLevelField : Type 0 where
  pub response_key : String
  pub name : String

-- The fields found, and the response keys seen, which go on from one selection to the next.
abbrev pub Found : Type 0
Found = List TopLevelField × List String

abbrev pub Walk : Type 0
Walk = List String → Selections → List String → Result Found

-- More fields behind those found so far.
pub join : List TopLevelField → Found → Found
join fields (more, seen) = (fields ++ more, seen)

enter_fragment : Walk → List String → String → Option Selections → List String → Result Found
enter_fragment nested visited name none seen = err (undeclared_fragment name)
enter_fragment nested visited name (some sels) seen = nested (name ∷ visited) sels seen

-- One selection: `nested` is the call one level deeper.
collect_one :
    (String → Option Selections) → Walk → List String → Selection → List String → Result Found
unfolding enter_fragment
collect_one fragment nested visited (field alias name sub) seen =
    if contains seen alias
    then ok ([], seen)
    else ok (record { response_key = alias; name = name } ∷ [], alias ∷ seen)
collect_one fragment nested visited (inline_fragment sels) seen = nested visited sels seen
collect_one fragment nested visited (fragment_spread name) seen =
    if contains visited name
    then err (fragment_cycle name)
    else enter_fragment nested visited name (fragment name) seen

pub collect_all : (String → Option Selections) → Walk → Walk
unfolding collect_one join
collect_all fragment nested visited nil seen = ok ([], seen)
collect_all fragment nested visited (cons sel sels) seen = do
  (fields, seen') ← collect_one fragment nested visited sel seen
  found ← collect_all fragment nested visited sels seen'
  ok (join fields found)

-- `maxFragmentDepth`
abbrev max_fragment_depth : ℕ
max_fragment_depth = 16

-- `collectTopLevelFields`, by the number of levels left: at depth d it is 17 - d, and the depth is
-- exceeded where none is left.
unfoldable pub collect_top_level_fields : (String → Option Selections) → ℕ → Walk
unfolding collect_all
collect_top_level_fields fragment zero visited sels seen = err depth_exceeded
collect_top_level_fields fragment (suc left) visited sels seen =
    collect_all fragment (collect_top_level_fields fragment left) visited sels seen

pub operations_fields :
    (String → Option Selections) → String → List Operation → List String → Result Found
unfolding join collect_top_level_fields
operations_fields fragment operation_name [] seen = ok ([], seen)
operations_fields fragment operation_name (op ∷ ops) seen = do
  (fields, seen') ←
      (if operation_name == "" || op.name == operation_name
        then collect_top_level_fields fragment (suc max_fragment_depth) [] op.selection_set seen
        else ok ([], seen))
  found ← operations_fields fragment operation_name ops seen'
  ok (join fields found)

-- `topLevelFields`: `none` is the empty query, `some none` one that does not parse.
unfoldable pub top_level_fields :
    Option (Option QueryDocument) → String → Result (List TopLevelField)
unfolding operations_fields
top_level_fields none operation_name = ok []
top_level_fields (some none) operation_name = err malformed
top_level_fields (some (some doc)) operation_name = do
  (fields, seen) ← operations_fields doc.fragment operation_name doc.operations []
  ok fields

unfoldable pub names_from : List String → List TopLevelField → List String
names_from seen [] = []
names_from seen (f ∷ fields) =
    let rest = names_from seen fields in
    let more = f.name ∷ names_from (f.name ∷ seen) fields in
    if contains seen f.name then rest else more

unfoldable pub collection_names : List TopLevelField → List String
unfolding names_from
collection_names fields = names_from [] fields

unfoldable pub collections_from_query :
    Option (Option QueryDocument) → String → Result (List String)
unfolding top_level_fields collection_names
collections_from_query query operation_name = do
  fields ← top_level_fields query operation_name
  ok (collection_names fields)

unfoldable pub response_keys : List TopLevelField → String → List String
response_keys [] name = []
response_keys (f ∷ fields) name =
    let rest = response_keys fields name in if f.name == name then f.response_key ∷ rest else rest
