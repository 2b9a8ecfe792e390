-- ===== src/Views/Manager.antt =====
-- pkg/view/viewManager.go: the registration of views. What is subscribed to, downloaded and persisted
-- with a view has no part in the manager's state.
pub mod Kept
pub mod Lasting
pub mod Addressed
pub mod Registered
use shinzo_host_client.Prelude.{
  ℕ, zero, suc, ◌+◌, ◌-◌, ◌%◌, ◌^◌, String, Bool, true, false, not, ◌&&◌, ◌||◌, Option, none, some,
  List, [], ◌∷◌, ◌++◌, ◌==◌, nat_eq, string_eq, if◌then◌else◌, length, drop, contains, Map, lookup,
  insert,
}
use shinzo_host_client.Prelude.Bytes.{bytes_eq, codes, has_prefix, has_infix}
use shinzo_host_client.Prelude.Results.{Result, ok, err}
use shinzo_host_client.Pruner.DocId.{Bytes}
use shinzo_host_client.Host.Metrics.{
  HostMetrics, counted, increment_views_registered, set_views_active,
}
use shinzo_host_client.Views.{
  Lens, View, ViewError, view_already_registered, Services, validate, has_lenses,
  needs_wasm_conversion, post_wasm_to_file, setup_lens_in_defra_db, configure_lens,
}

pub record ActiveView : Type 0 where
  pub source : Bytes
  pub destination : Bytes
  pub contract_address : String

pub record Manager (Database : Type 0) : Type 0 where
  pub active_views : Map String ActiveView
  pub metrics : Option HostMetrics
  pub database : Database

-- The views whose name was not seen before.
unseen : List String → List View → List View
unseen seen [] = []
unseen seen (v ∷ views) =
    let more = v.name ∷ seen in
    let later = unseen more views in
    let same = unseen seen views in if contains seen v.name then same else v ∷ later

unfoldable pub deduplicate_views : List View → List View
unfolding unseen
deduplicate_views views = unseen [] views

lens_urls : List Lens → List Bytes
lens_urls [] = []
lens_urls (l ∷ lenses) =
    let rest = lens_urls lenses in
    if has_prefix l.path (codes "http://") || has_prefix l.path (codes "https://")
    then l.path ∷ rest
    else rest

unfoldable pub extract_wasm_urls_from_views : List View → List Bytes
unfolding lens_urls
extract_wasm_urls_from_views [] = []
extract_wasm_urls_from_views (v ∷ views) = lens_urls v.lenses ++ extract_wasm_urls_from_views views

-- `strings.ReplaceAll`: what is left of a replaced part is skipped.
replace_all : Bytes → Bytes → ℕ → Bytes → Bytes
replace_all old new skip [] = []
replace_all old new (suc skip) (c ∷ s) = replace_all old new skip s
replace_all old new zero (c ∷ s) =
    let skipped = replace_all old new (length old - 1) s in
    let kept = replace_all old new 0 s in
    if has_prefix (c ∷ s) old then new ++ skipped else c ∷ kept

unfoldable pub fix_query_input_data : View → View
unfolding replace_all
fix_query_input_data v =
    if has_infix v.query (codes "inputData")
    then record v { query = replace_all (codes "inputData") (codes "input") 0 v.query }
    else v

is_space : ℕ → Bool
is_space c = (c == 32) || (c == 10) || (c == 9) || (c == 13)

trim_left : Bytes → Bytes
unfolding is_space
trim_left [] = []
trim_left (c ∷ s) = let rest = trim_left s in if is_space c then rest else c ∷ s

-- The bytes before a brace, a space, a line end or a tab.
up_to_brace : Bytes → Bytes
up_to_brace [] = []
up_to_brace (c ∷ s) =
    let rest = up_to_brace s in
    if (c == b'{') || (c == 32) || (c == 10) || (c == 9) then [] else c ∷ rest

unfoldable pub extract_collection_from_query : Bytes → Bytes
unfolding trim_left up_to_brace
extract_collection_from_query query = up_to_brace (trim_left query)

-- `strings.Replace` of the first occurrence.
replace_first : Bytes → Bytes → Bytes → Bytes
replace_first old new [] = []
replace_first old new (c ∷ s) =
    let later = replace_first old new s in
    if has_prefix (c ∷ s) old then new ++ drop (length old) (c ∷ s) else c ∷ later

unfoldable pub fix_collection_name : View → View
unfolding extract_collection_from_query replace_first
fix_collection_name v =
    let source = extract_collection_from_query v.query in
    if not (source == []) && not (has_prefix source (codes "Ethereum__Mainnet__"))
    then record v { query = replace_first source (codes "Ethereum__Mainnet__" ++ source) v.query }
    else v

is_present : Option ActiveView → Bool
is_present none = false
is_present (some a) = true

address_of : Option ActiveView → Option String
address_of none = none
address_of (some a) = if a.contract_address == "" then none else some a.contract_address

unfoldable pub active_view : View → ActiveView
active_view v = record {
  source = v.query;
  destination = v.sdl;
  contract_address = v.contract_address;
}

module _ {Database : Type 0} where
  unfoldable pub get_view_count : Manager Database → ℕ
  get_view_count m = length m.active_views

  unfoldable pub is_active : String → Manager Database → Bool
  unfolding is_present
  is_active name m = is_present (lookup name m.active_views)

  unfoldable pub contract_address : String → Manager Database → Option String
  unfolding address_of
  contract_address name m = address_of (lookup name m.active_views)

  -- `updateMetrics`, before the view is among the active ones.
  unfoldable pub update_metrics : Manager Database → Manager Database
  unfolding increment_views_registered set_views_active
  update_metrics m = record m {
    metrics =
        counted (λ x. set_views_active (length m.active_views) (increment_views_registered x))
          m.metrics;
  }

  unfoldable pub activate : View → Manager Database → Manager Database
  unfolding update_metrics active_view
  activate v m =
      let counted_one = update_metrics m in
      record counted_one { active_views = insert v.name (active_view v) counted_one.active_views }

module _ {Database : Type 0} (services : Services Database) where
  unfoldable pub prepare_wasm : View → Result ViewError View
  unfolding has_lenses needs_wasm_conversion post_wasm_to_file
  prepare_wasm v =
      if has_lenses v && needs_wasm_conversion v then post_wasm_to_file services v else ok v

  -- An error leaves the view out; the database keeps what it has been handed.
  finished :
      Result ViewError View × Database → Manager Database → Result ViewError View × Manager Database
  unfolding activate
  finished (err e, db) m = (err e, record m { database = db })
  finished (ok v, db) m = (ok v, activate v (record m { database = db }))

  with_lens :
      View
      → Result ViewError Bytes × Database
      → Manager Database
      → Result ViewError View × Manager Database
  unfolding finished fix_collection_name configure_lens
  with_lens v (err e, db) m = (err e, record m { database = db })
  with_lens v (ok cid, db) m = finished (configure_lens services cid (fix_collection_name v) db) m

  with_wasm : Result ViewError View → Manager Database → Result ViewError View × Manager Database
  unfolding with_lens setup_lens_in_defra_db
  with_wasm (err e) m = (err e, m)
  with_wasm (ok v) m = with_lens v (setup_lens_in_defra_db services v m.database) m

  validated :
      View → Result ViewError Unit → Manager Database → Result ViewError View × Manager Database
  unfolding with_wasm prepare_wasm is_active fix_query_input_data
  validated v (err e) m = (err e, m)
  validated v (ok _) m =
      if is_active v.name m
      then (err view_already_registered, m)
      else with_wasm (prepare_wasm (fix_query_input_data v)) m

  -- `RegisterView`: an error, or the view as it is left, which is the registered one.
  unfoldable pub register_view : View → Manager Database → Result ViewError View × Manager Database
  unfolding validated validate
  register_view v m = validated v (validate services v) m

  unfoldable pub register_all : List View → Manager Database → Manager Database
  unfolding register_view
  register_all [] m = m
  register_all (v ∷ views) m = register_all views (register_view v m).1
