-- ===== src/Views/Wasm/Sync/Kept.antt =====
-- What the registry remembers, whatever calls have led to it: wasmRegistry.go.
use shinzo_host_client.Prelude.{
  ℕ, zero, suc, ◌≡◌, refl, Bool, true, false, some, List, [], ◌∷◌, Map, lookup, arith, inl, inr,
  Bool-cases,
}
use shinzo_host_client.Prelude.Bytes.{bytes_eq, codes, has_prefix}
use shinzo_host_client.Prelude.Results.{Result, ok, err}
use shinzo_host_client.Pruner.DocId.{Bytes}
use shinzo_host_client.Views.Wasm.{
  Files, Attempt, Paths, WasmRegistry, WasmError, new_wasm_registry, is_present, download_wasm,
  url_to_filename, file_url, ensure_wasm, get_local_path,
}
use shinzo_host_client.Views.Wasm.Sync.{
  Synced, is_url, collect, ensure_each, all_or_failed, ensure_all_wasm, synced, sync_one, sync_next,
  sync_all, sync_lens_wasm, counted_download, startup_one, startup_each, startup_sync,
}
use shinzo_host_client.Views.Wasm.Download.{download_wasm-holds}
use shinzo_host_client.Views.Wasm.Sync.Remembered.{
  IsThere, IsRemembered, cache_entry-IsRemembered, with_files-IsRemembered, is_present-IsThere,
  ensure_wasm-IsRemembered,
}

module _ (paths : Paths) where
  collect-IsRemembered :
      (url : Bytes) (out : Result WasmError Bytes × WasmRegistry) (acc : Map Bytes Bytes × ℕ)
      → IsRemembered paths out.1
      → IsRemembered paths (collect paths url out acc).1
  unfolding collect
  collect-IsRemembered url (ok path, r) (results, errors) h = h
  collect-IsRemembered url (err e, r) (results, errors) h = h

  ensure_each-IsRemembered :
      (urls : List (Bytes × Attempt)) (s : (Map Bytes Bytes × ℕ) × WasmRegistry)
      → IsRemembered paths s.1
      → IsRemembered paths (ensure_each paths urls s).1
  unfolding ensure_each
  ensure_each-IsRemembered [] s h = h
  ensure_each-IsRemembered ((url, a) ∷ urls) (acc, r) h =
      ensure_each-IsRemembered urls (collect paths url (ensure_wasm paths a url r) acc) (
        collect-IsRemembered url (ensure_wasm paths a url r) acc
          (ensure_wasm-IsRemembered paths a url r h))

  all_or_failed-IsRemembered :
      (s : (Map Bytes Bytes × ℕ) × WasmRegistry)
      → IsRemembered paths s.1
      → IsRemembered paths (all_or_failed paths s).1
  unfolding all_or_failed
  all_or_failed-IsRemembered ((results, zero), r) h = h
  all_or_failed-IsRemembered ((results, suc n), r) h = h

  synced-IsRemembered :
      (source : Bytes) (out : Result WasmError Bytes × WasmRegistry) (path_map : Map Bytes Bytes)
      → IsRemembered paths out.1
      → IsRemembered paths (synced paths source out path_map).1
  unfolding synced
  synced-IsRemembered source (ok path, r) path_map h = h
  synced-IsRemembered source (err e, r) path_map h = h

  sync_one-IsRemembered :
      (source : Bytes) (a : Attempt) (path_map : Map Bytes Bytes) (r : WasmRegistry)
      → IsRemembered paths r
      → IsRemembered paths (sync_one paths source a path_map r).1
  unfolding sync_one
  sync_one-IsRemembered source a path_map r h =
      elim (Bool-cases (has_prefix source (codes "file://"))) [
        | inl local ↦ rw local h
        | inr remote ↦ elim (Bool-cases (is_url source)) [
          | inl url ↦ rw remote (
              rw url (
                synced-IsRemembered source (ensure_wasm paths a source r) path_map
                  (ensure_wasm-IsRemembered paths a source r h)))
          | inr other ↦ rw remote (rw other h)
        ]
      ]

  sync_next-IsRemembered :
      (later : Map Bytes Bytes → WasmRegistry → Result WasmError (Map Bytes Bytes) × WasmRegistry)
      (out : Result WasmError (Map Bytes Bytes) × WasmRegistry)
      → ((path_map : Map Bytes Bytes) (r : WasmRegistry)
          → IsRemembered paths r
          → IsRemembered paths (later path_map r).1)
      → IsRemembered paths out.1
      → IsRemembered paths (sync_next paths later out).1
  unfolding sync_next
  sync_next-IsRemembered later (err e, r) k h = h
  sync_next-IsRemembered later (ok path_map, r) k h = k path_map r h

  sync_all-IsRemembered :
      (lenses : List (Bytes × Attempt)) (path_map : Map Bytes Bytes) (r : WasmRegistry)
      → IsRemembered paths r
      → IsRemembered paths (sync_all paths lenses path_map r).1
  unfolding sync_all
  sync_all-IsRemembered [] path_map r h = h
  sync_all-IsRemembered ((source, a) ∷ lenses) path_map r h =
      sync_next-IsRemembered (sync_all paths lenses) (sync_one paths source a path_map r)
        (λ m r' k. sync_all-IsRemembered lenses m r' k)
        (sync_one-IsRemembered source a path_map r h)

  counted_download-IsRemembered :
      (url : Bytes) (out : Bool × Files) (s : Synced) (r : WasmRegistry)
      → (out.0 ≡ true → IsThere paths url out.1)
      → IsRemembered paths (record r { files = out.1 })
      → IsRemembered paths (counted_download paths url out (s, r)).1
  unfolding counted_download
  counted_download-IsRemembered url (true, files) s r there h =
      cache_entry-IsRemembered paths url (record r { files = files }) (there refl) h
  counted_download-IsRemembered url (false, files) s r there h = h

  startup_one-IsRemembered :
      (url : Bytes) (a : Attempt) (s : Synced) (r : WasmRegistry)
      → IsRemembered paths r
      → IsRemembered paths (startup_one paths url a (s, r)).1
  unfolding startup_one
  startup_one-IsRemembered url a s r h = elim (Bool-cases (is_url url)) [
    | inr other ↦ rw other h
    | inl remote ↦ elim (Bool-cases (is_present (url_to_filename paths url) r.files)) [
      | inl found ↦ rw remote (
          rw found
            (cache_entry-IsRemembered paths url r (is_present-IsThere paths url r.files found) h))
      | inr missing ↦ rw remote (
          rw missing (
            counted_download-IsRemembered url (download_wasm a (url_to_filename paths url) r.files)
              s r (download_wasm-holds a (url_to_filename paths url) r.files)
              (with_files-IsRemembered paths a (url_to_filename paths url) r h)))
    ]
  ]

  startup_each-IsRemembered :
      (urls : List (Bytes × Attempt)) (s : Synced × WasmRegistry)
      → IsRemembered paths s.1
      → IsRemembered paths (startup_each paths urls s).1
  unfolding startup_each
  startup_each-IsRemembered [] s h = h
  startup_each-IsRemembered ((url, a) ∷ urls) (s, r) h =
      startup_each-IsRemembered urls (startup_one paths url a (s, r))
        (startup_one-IsRemembered url a s r h)

  -- The registries that calls other than the removal of unused files lead to.
  pub data Reachable : WasmRegistry → Type 0 where
    created : (files : Files) → Reachable (new_wasm_registry files)
    ensured :
        {r : WasmRegistry} (a : Attempt) (url : Bytes)
        → Reachable r
        → Reachable (ensure_wasm paths a url r).1
    all_ensured :
        {r : WasmRegistry} (urls : List (Bytes × Attempt))
        → Reachable r
        → Reachable (ensure_all_wasm paths urls r).1
    lenses_synced :
        {r : WasmRegistry} (lenses : List (Bytes × Attempt))
        → Reachable r
        → Reachable (sync_lens_wasm paths lenses r).1
    started :
        {r : WasmRegistry} (urls : List (Bytes × Attempt))
        → Reachable r
        → Reachable (startup_sync paths urls r).1

  Reachable-IsRemembered : {r : WasmRegistry} → Reachable r → IsRemembered paths r
  unfolding new_wasm_registry ensure_all_wasm sync_lens_wasm startup_sync lookup
  Reachable-IsRemembered (created files) = λ url path e. ground (arith, e)
  Reachable-IsRemembered (ensured a url reached) =
      ensure_wasm-IsRemembered paths a url _ (Reachable-IsRemembered reached)
  Reachable-IsRemembered (all_ensured urls reached) =
      all_or_failed-IsRemembered _
        (ensure_each-IsRemembered urls _ (Reachable-IsRemembered reached))
  Reachable-IsRemembered (lenses_synced lenses reached) =
      sync_all-IsRemembered lenses [] _ (Reachable-IsRemembered reached)
  Reachable-IsRemembered (started urls reached) =
      startup_each-IsRemembered urls _ (Reachable-IsRemembered reached)

  -- Whatever calls other than the removal of unused files have led to a registry, a local path that it
  -- has for a URL is that of the URL's file, and the file is in the directory.
  pub get_local_path-IsThere :
      (r : WasmRegistry) (url path : Bytes)
      → Reachable r
      → get_local_path url r ≡ some path
      → (path ≡ file_url paths url) × IsThere paths url r.files
  unfolding get_local_path
  get_local_path-IsThere r url path reached e = Reachable-IsRemembered reached url path e
