-- ===== src/Views/Wasm/Sync.antt =====
-- pkg/view/wasmRegistry.go: the WASM files of many views, at the start and later, and the removal of
-- unused ones. Each URL stands with what meets its download, should there be one.
pub mod Remembered
pub mod Removed
pub mod Kept
use shinzo_host_client.Prelude.{
  ℕ, zero, suc, ◌+◌, Bool, true, false, not, ◌&&◌, ◌||◌, Option, none, some, List, [], ◌∷◌,
  if◌then◌else◌, Map, insert, delete, contains, map,
}
use shinzo_host_client.Prelude.Bytes.{bytes_eq, codes, has_prefix}
use shinzo_host_client.Prelude.Results.{Result, ok, err}
use shinzo_host_client.Pruner.DocId.{Bytes}
use shinzo_host_client.Views.Wasm.{
  Files, Attempt, Paths, WasmRegistry, WasmError, download_failed, wasm_downloads_failed,
  has_suffix, is_present, download_wasm, url_to_filename, cache_entry, ensure_wasm,
}

is_url : Bytes → Bool
is_url s = has_prefix s (codes "http://") || has_prefix s (codes "https://")

-- How many files were downloaded and how many found, and whether one failed.
pub record Synced : Type 0 where
  pub downloaded_count : ℕ
  pub cached_count : ℕ
  pub error : Option WasmError

module _ (paths : Paths) where
  -- The paths so far, the number of errors, and the registry.
  collect :
      Bytes
      → Result WasmError Bytes × WasmRegistry
      → Map Bytes Bytes × ℕ
      → (Map Bytes Bytes × ℕ) × WasmRegistry
  collect url (ok path, r) (results, errors) = ((insert url path results, errors), r)
  collect url (err e, r) (results, errors) = ((results, errors + 1), r)

  ensure_each :
      List (Bytes × Attempt)
      → (Map Bytes Bytes × ℕ) × WasmRegistry
      → (Map Bytes Bytes × ℕ) × WasmRegistry
  unfolding collect ensure_wasm
  ensure_each [] s = s
  ensure_each ((url, a) ∷ urls) (acc, r) =
      ensure_each urls (collect url (ensure_wasm paths a url r) acc)

  all_or_failed :
      (Map Bytes Bytes × ℕ) × WasmRegistry → (Map Bytes Bytes × Option WasmError) × WasmRegistry
  all_or_failed ((results, zero), r) = ((results, none), r)
  all_or_failed ((results, suc n), r) = ((results, some (wasm_downloads_failed (suc n))), r)

  -- Each URL with what meets its download, should there be one.
  unfoldable pub ensure_all_wasm :
      List (Bytes × Attempt) → WasmRegistry → (Map Bytes Bytes × Option WasmError) × WasmRegistry
  unfolding ensure_each all_or_failed
  ensure_all_wasm urls r = all_or_failed (ensure_each urls (([], 0), r))

  synced :
      Bytes
      → Result WasmError Bytes × WasmRegistry
      → Map Bytes Bytes
      → Result WasmError (Map Bytes Bytes) × WasmRegistry
  synced source (ok path, r) path_map = (ok (insert source path path_map), r)
  synced source (err e, r) path_map = (err e, r)

  sync_one :
      Bytes
      → Attempt
      → Map Bytes Bytes
      → WasmRegistry
      → Result WasmError (Map Bytes Bytes) × WasmRegistry
  unfolding synced ensure_wasm is_url
  sync_one source a path_map r =
      if has_prefix source (codes "file://")
      then (ok (insert source source path_map), r)
      else if is_url source
      then synced source (ensure_wasm paths a source r) path_map
      else (ok (insert source source path_map), r)

  sync_next :
      (Map Bytes Bytes → WasmRegistry → Result WasmError (Map Bytes Bytes) × WasmRegistry)
      → Result WasmError (Map Bytes Bytes) × WasmRegistry
      → Result WasmError (Map Bytes Bytes) × WasmRegistry
  sync_next later (err e, r) = (err e, r)
  sync_next later (ok path_map, r) = later path_map r

  sync_all :
      List (Bytes × Attempt)
      → Map Bytes Bytes
      → WasmRegistry
      → Result WasmError (Map Bytes Bytes) × WasmRegistry
  unfolding sync_next sync_one
  sync_all [] path_map r = (ok path_map, r)
  sync_all ((source, a) ∷ lenses) path_map r =
      sync_next (sync_all lenses) (sync_one source a path_map r)

  -- The paths of the lenses, each with what meets its download.
  unfoldable pub sync_lens_wasm :
      List (Bytes × Attempt) → WasmRegistry → Result WasmError (Map Bytes Bytes) × WasmRegistry
  unfolding sync_all
  sync_lens_wasm lenses r = sync_all lenses [] r

  first_error : Option WasmError → WasmError → Option WasmError
  first_error none e = some e
  first_error (some e) e' = some e

  counted_download : Bytes → Bool × Files → Synced × WasmRegistry → Synced × WasmRegistry
  unfolding cache_entry first_error
  counted_download url (true, files) (s, r) = (
    record s { downloaded_count = s.downloaded_count + 1 },
    cache_entry paths url (record r { files = files }),
  )
  counted_download url (false, files) (s, r) =
      (record s { error = first_error s.error (download_failed url) }, record r { files = files })

  startup_one : Bytes → Attempt → Synced × WasmRegistry → Synced × WasmRegistry
  unfolding counted_download cache_entry is_url is_present url_to_filename download_wasm
  startup_one url a (s, r) =
      if not (is_url url)
      then (s, r)
      else if is_present (url_to_filename paths url) r.files
      then (record s { cached_count = s.cached_count + 1 }, cache_entry paths url r)
      else counted_download url (download_wasm a (url_to_filename paths url) r.files) (s, r)

  startup_each : List (Bytes × Attempt) → Synced × WasmRegistry → Synced × WasmRegistry
  unfolding startup_one
  startup_each [] s = s
  startup_each ((url, a) ∷ urls) s = startup_each urls (startup_one url a s)

  unfoldable pub startup_sync : List (Bytes × Attempt) → WasmRegistry → Synced × WasmRegistry
  unfolding startup_each
  startup_sync urls r =
      startup_each urls (record { downloaded_count = 0; cached_count = 0; error = none }, r)

  -- Without the files that end in .wasm, are of no active URL and can be removed; how many those were.
  remove_unused : (Bytes → Bool) → List Bytes → List Bytes → ℕ × Files → ℕ × Files
  remove_unused removes active [] s = s
  remove_unused removes active (name ∷ names) (removed, files) =
      let without = remove_unused removes active names (removed + 1, delete name files) in
      let with_ = remove_unused removes active names (removed, files) in
      if has_suffix name (codes ".wasm") && not (contains active name) && removes name
      then without
      else with_

  cleaned : WasmRegistry → ℕ × Files → ℕ × WasmRegistry
  cleaned r (removed, files) = (removed, record r { files = files })

  -- `none` where the directory cannot be read.
  unfoldable pub cleanup_unused :
      Bool → (Bytes → Bool) → List Bytes → WasmRegistry → Option ℕ × WasmRegistry
  unfolding remove_unused cleaned url_to_filename
  cleanup_unused reads removes active_urls r =
      let (removed, r') = cleaned r (
        remove_unused removes (map (url_to_filename paths) active_urls) (map (λ f. f.0) r.files)
          (0, r.files)) in
      if reads then (some removed, r') else (none, r)
