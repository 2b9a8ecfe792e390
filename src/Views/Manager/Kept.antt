-- ===== src/Views/Manager/Kept.antt =====
-- The steps of a registration keep a view's name and address: viewManager.go.
use shinzo_host_client.Prelude.{
  ◌≡◌, ◌∙◌, inl, inr, refl, Option, none, some, List, [], ◌==◌, string_eq, arith, Bool-cases, ◌&&◌,
  ◌||◌,
}
use shinzo_host_client.Prelude.Bytes.{bytes_eq, codes, has_infix}
use shinzo_host_client.Prelude.Results.{Result, ok, err, ◌>>=◌}
use shinzo_host_client.Pruner.DocId.{Bytes}
use shinzo_host_client.Views.{
  Lens, View, has_lenses, needs_wasm_conversion, ViewError, Services, post_lenses,
  post_wasm_to_file, retried, corrected, view_added, configure_lens,
}
use shinzo_host_client.Views.Manager.{fix_query_input_data, fix_collection_name, prepare_wasm}

-- The same view up to its query and its lenses.
pub record IsSame (v w : View) : Type 0 where
  pub name : w.name ≡ v.name
  pub contract_address : w.contract_address ≡ v.contract_address

pub IsSame-refl : (v : View) → IsSame v v
IsSame-refl v = record { name = refl; contract_address = refl }

pub IsSame-trans : (u v w : View) → IsSame u v → IsSame v w → IsSame u w
IsSame-trans u v w p q = record {
  name = q.name ∙ p.name;
  contract_address = q.contract_address ∙ p.contract_address;
}

pub fix_query_input_data-IsSame : (v : View) → IsSame v (fix_query_input_data v)
unfolding fix_query_input_data
fix_query_input_data-IsSame v = elim (Bool-cases (has_infix v.query (codes "inputData"))) [
  | inl e ↦ rw e (record { name = refl; contract_address = refl })
  | inr e ↦ rw e (record { name = refl; contract_address = refl })
]

pub fix_collection_name-IsSame : (v : View) → IsSame v (fix_collection_name v)
unfolding fix_collection_name
fix_collection_name-IsSame v = record { name = ground arith; contract_address = ground arith }

-- A view that a step yields, if it yields one, is the same.
abbrev pub Keeps : View → Result ViewError View → Type 0
Keeps v (ok w) = IsSame v w
Keeps v (err e) = Unit

pub Keeps-trans : (u v : View) (r : Result ViewError View) → IsSame u v → Keeps v r → Keeps u r
Keeps-trans u v (ok w) p q = IsSame-trans u v w p q
Keeps-trans u v (err e) p q = tt

module _ {Database : Type 0} (services : Services Database) where
  pub post_wasm_to_file-Keeps : (v : View) → Keeps v (post_wasm_to_file services v)
  unfolding post_wasm_to_file
  post_wasm_to_file-Keeps v = go (post_lenses services 0 v.lenses)
    where
      go :
          (r : Result ViewError (List Lens))
          → Keeps v (r >>= (λ lenses. ok (record v { lenses = lenses })))
      go (ok lenses) = record { name = refl; contract_address = refl }
      go (err e) = tt

  pub prepare_wasm-Keeps : (v : View) → Keeps v (prepare_wasm services v)
  unfolding prepare_wasm
  prepare_wasm-Keeps v = elim (Bool-cases (has_lenses v && needs_wasm_conversion v)) [
    | inl e ↦ rw e (post_wasm_to_file-Keeps v)
    | inr e ↦ rw e (IsSame-refl v)
  ]

  retried-Keeps : (v : View) (r : Option Bytes × Database) → Keeps v (retried services v r).0
  unfolding retried
  retried-Keeps v (none, db) = IsSame-refl v
  retried-Keeps v (some e, db) = elim (Bool-cases (has_infix e (codes "already exists"))) [
    | inl h ↦ rw h (IsSame-refl v)
    | inr h ↦ rw h tt
  ]

  corrected-Keeps :
      (cid query : Bytes) (v : View) (db : Database) → Keeps v (corrected services cid query v db).0
  unfolding corrected
  corrected-Keeps cid query v db = elim (Bool-cases (query == v.query)) [
    | inl h ↦ rw h tt
    | inr h ↦ rw h (
        Keeps-trans v (record v { query = query })
          (retried services (record v { query = query }) (services.add_view cid query v.sdl db)).0
          (record { name = refl; contract_address = refl })
          (retried-Keeps (record v { query = query }) (services.add_view cid query v.sdl db)))
  ]

  view_added-Keeps :
      (cid : Bytes) (v : View) (r : Option Bytes × Database)
      → Keeps v (view_added services cid v r).0
  unfolding view_added
  view_added-Keeps cid v (none, db) = IsSame-refl v
  view_added-Keeps cid v (some e, db) = elim (Bool-cases (has_infix e (codes "already exists"))) [
    | inl h ↦ rw h (IsSame-refl v)
    | inr h ↦
        rw h
          (elim (Bool-cases
            (has_infix e (codes "Cannot query field") && has_infix e (codes "Did you mean"))) [
              | inl k ↦ rw k (corrected-Keeps cid (services.correct_query e v.query) v db)
              | inr k ↦ rw k tt
            ])
  ]

  pub configure_lens-Keeps :
      (cid : Bytes) (v : View) (db : Database) → Keeps v (configure_lens services cid v db).0
  unfolding configure_lens
  configure_lens-Keeps cid v db = elim (Bool-cases ((v.query == []) || (v.sdl == []))) [
    | inl h ↦ rw h tt
    | inr h ↦ rw h (view_added-Keeps cid v (services.add_view cid v.query v.sdl db))
  ]
