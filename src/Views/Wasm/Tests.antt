-- ===== src/Views/Wasm/Tests.antt =====
-- The WASM registry at concrete files.
use shinzo_host_client.Prelude.{
  ◌≡◌, ◌⊎◌, refl, true, some, [], ◌∷◌, string_eq, lookup, insert, arith, ==_iff,
}
use shinzo_host_client.Prelude.Bytes.{bytes_eq, codes}
use shinzo_host_client.Pruner.DocId.{Bytes, encode_hex}
use shinzo_host_client.Views.Wasm.{
  Files, Attempt, Paths, WasmRegistry, new_wasm_registry, temporary, download_wasm, url_to_filename,
  file_url, cache_entry, has_suffix, is_present, ensure_wasm, get_local_path,
}
use shinzo_host_client.Views.Wasm.Download.{IsUnchanged, IsDownloaded, download_wasm-IsAtomic}
use shinzo_host_client.Views.Wasm.Sync.Remembered.{IsThere}
use shinzo_host_client.Views.Wasm.Sync.Kept.{created, ensured, get_local_path-IsThere}

abbrev an_attempt : Attempt
an_attempt = record {
  answer = some (200, some (codes "wasm"));
  creates = true;
  removes = true;
  renames = true;
}

abbrev other_files : Files
other_files = (codes "old.wasm", some (codes "old")) ∷ []

download_wasm-IsAtomic_example :
    IsUnchanged
      (codes "old.wasm")
      other_files
      (download_wasm an_attempt (codes "new.wasm") other_files).1
    ⊎ ((codes "old.wasm" ≡ codes "new.wasm")
        × IsDownloaded an_attempt
            (codes "new.wasm")
            (download_wasm an_attempt (codes "new.wasm") other_files))
unfolding temporary
download_wasm-IsAtomic_example =
    download_wasm-IsAtomic an_attempt (codes "new.wasm") (codes "old.wasm") other_files
      (λ e. ground (arith, (==_iff (codes "old.wasm") (codes "new.wasm.tmp")).1 e))

abbrev some_paths : Paths
some_paths = record { sha256 = λ s. 1 ∷ 2 ∷ 3 ∷ 4 ∷ 5 ∷ []; absolute = λ name. codes "/r/" }

abbrev a_url : Bytes
a_url = codes "http://h/v.wasm"

abbrev a_registry : WasmRegistry
a_registry = (ensure_wasm some_paths an_attempt a_url (new_wasm_registry other_files)).1

get_local_path-IsThere_example :
    (codes "file:///r/" ≡ file_url some_paths a_url) × IsThere some_paths a_url a_registry.files
unfolding ensure_wasm new_wasm_registry cache_entry file_url get_local_path lookup insert
    download_wasm url_to_filename is_present has_suffix encode_hex
get_local_path-IsThere_example =
    get_local_path-IsThere some_paths a_registry a_url (codes "file:///r/")
      (ensured an_attempt a_url (created other_files)) refl
