-- ===== src/Views/Startup.antt =====
-- pkg/view/viewManager.go: the views that are loaded, registered and saved at the start.
pub mod Persisted
use shinzo_host_client.Prelude.{
  ℕ, zero, suc, ◌+◌, ◌<◌, Bool, Option, none, some, List, [], ◌∷◌, ◌++◌, length, ltb, if◌then◌else◌,
}
use shinzo_host_client.Prelude.Results.{Result, ok, err}
use shinzo_host_client.Pruner.DocId.{Bytes}
use shinzo_host_client.Views.{View, ViewError, Services}
use shinzo_host_client.Views.Manager.{
  Manager, deduplicate_views, extract_wasm_urls_from_views, register_view,
}
use shinzo_host_client.Views.Saved.{
  ViewsFile, RegistryError, add_views_from_lens_registry, save_view_to_registry,
}
use shinzo_host_client.Views.Wasm.{Attempt, Paths, WasmRegistry}
use shinzo_host_client.Views.Wasm.Sync.{ensure_all_wasm}

pub record Startup (Database : Type 0) : Type 0 where
  pub manager : Manager Database
  pub wasm_registry : Option WasmRegistry
  pub views_file : ViewsFile

-- An error is only logged.
local_views : Result RegistryError (List View) → List View
local_views (err e) = []
local_views (ok views) = views

-- Each URL with what meets its download.
with_attempts : (ℕ → Attempt) → ℕ → List Bytes → List (Bytes × Attempt)
with_attempts attempts n [] = []
with_attempts attempts n (url ∷ urls) = (url, attempts n) ∷ with_attempts attempts (suc n) urls

wasm_ensured : Paths → (ℕ → Attempt) → List Bytes → Option WasmRegistry → Option WasmRegistry
unfolding with_attempts ensure_all_wasm
wasm_ensured paths attempts urls none = none
wasm_ensured paths attempts urls (some r) =
    if ltb 0 (length urls)
    then some (ensure_all_wasm paths (with_attempts attempts 0 urls) r).1
    else some r

module _ {Database : Type 0} (services : Services Database)
    (write : List View → ViewsFile → Bool × ViewsFile) where
  unfoldable pub saved_if :
      Result ViewError View × Manager Database → ViewsFile → Manager Database × ViewsFile
  unfolding save_view_to_registry
  saved_if (err e, m) file = (m, file)
  saved_if (ok w, m) file = (m, (save_view_to_registry write w file).1)

  -- A view that is registered is saved as it is left.
  unfoldable pub register_and_save :
      View → Manager Database × ViewsFile → Manager Database × ViewsFile
  unfolding saved_if register_view
  register_and_save v (m, file) = saved_if (register_view services v m) file

  register_and_save_all : List View → Manager Database × ViewsFile → Manager Database × ViewsFile
  unfolding register_and_save
  register_and_save_all [] s = s
  register_and_save_all (v ∷ views) s = register_and_save_all views (register_and_save v s)

  loaded : Option WasmRegistry → Manager Database × ViewsFile → Startup Database
  loaded wasm (m, file) = record { manager = m; wasm_registry = wasm; views_file = file }

  -- The external views come before the local ones; those that cannot be registered are skipped.
  unfoldable pub load_and_register_views :
      Paths → (ℕ → Attempt) → List View → Startup Database → Startup Database
  unfolding loaded register_and_save_all wasm_ensured local_views add_views_from_lens_registry
      deduplicate_views extract_wasm_urls_from_views
  load_and_register_views paths attempts external s =
      let views =
        deduplicate_views (external ++ local_views (add_views_from_lens_registry s.views_file)) in
      loaded (wasm_ensured paths attempts (extract_wasm_urls_from_views views) s.wasm_registry)
        (register_and_save_all views (s.manager, s.views_file))
