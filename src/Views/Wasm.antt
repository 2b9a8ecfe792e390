-- ===== src/Views/Wasm.antt =====
-- pkg/view/wasmRegistry.go: the directory of downloaded WASM files and the paths that are remembered.
-- HTTP, SHA-256 and the file system answer through `Attempt` and `Paths`.
pub mod Sync
pub mod Download
mod Tests
use shinzo_host_client.Prelude.{
  ℕ, zero, suc, ◌+◌, ◌-◌, String, Bool, true, false, not, ◌&&◌, ◌||◌, Option, none, some, List, [],
  ◌∷◌, ◌++◌, ◌==◌, nat_eq, if◌then◌else◌, length, take, drop, leb, Map, lookup, insert, delete,
  contains, map,
}
use shinzo_host_client.Prelude.Bytes.{bytes_eq, codes, has_prefix}
use shinzo_host_client.Prelude.Results.{Result, ok, err}
use shinzo_host_client.Pruner.DocId.{Bytes, encode_hex}

-- The names in the directory, with what the files hold; `none` for a part of a body.
abbrev pub Files : Type 0
Files = Map Bytes (Option Bytes)

-- What meets a download: a status and a body, which is `none` if it cannot be read to its end, or an
-- error; and whether the file is created, removed and renamed.
pub record Attempt : Type 0 where
  pub answer : Option (ℕ × Option Bytes)
  pub creates : Bool
  pub removes : Bool
  pub renames : Bool

-- The hash, and the absolute path of a name in the directory.
pub record Paths : Type 0 where
  pub sha256 : Bytes → Bytes
  pub absolute : Bytes → Bytes

pub record WasmRegistry : Type 0 where
  pub cached : Map Bytes Bytes
  pub files : Files

pub data WasmError : Type 0 where
  download_failed : Bytes → WasmError
  wasm_downloads_failed : ℕ → WasmError

unfoldable pub new_wasm_registry : Files → WasmRegistry
new_wasm_registry files = record { cached = []; files = files }

unfoldable pub has_suffix : Bytes → Bytes → Bool
has_suffix s suffix =
    leb (length suffix) (length s) && (drop (length s - length suffix) s == suffix)

-- The last of the parts between slashes.
last_part : Bytes → Bytes → Bytes
last_part part [] = part
last_part part (c ∷ s) = if c == b'/' then last_part [] s else last_part (part ++ c ∷ []) s

exists : Option (Option Bytes) → Bool
exists none = false
exists (some content) = true

unfoldable pub is_present : Bytes → Files → Bool
unfolding exists
is_present name files = exists (lookup name files)

unfoldable pub temporary : Bytes → Bytes
temporary name = name ++ codes ".tmp"

-- The body is copied into a temporary file, which is renamed.
copied : Attempt → Bytes → Option Bytes → Files → Bool × Files
unfolding temporary
copied a name none files =
    (false, if a.removes then delete (temporary name) files else insert (temporary name) none files)
copied a name (some body) files =
    if a.renames
    then (true, insert name (some body) (delete (temporary name) files))
    else (false, insert (temporary name) (some body) files)

fetched : Attempt → Bytes → Option (ℕ × Option Bytes) → Files → Bool × Files
unfolding copied
fetched a name none files = (false, files)
fetched a name (some (status, body)) files =
    if not (status == 200)
    then (false, files)
    else if not a.creates
    then (false, files)
    else copied a name body files

unfoldable pub download_wasm : Attempt → Bytes → Files → Bool × Files
unfolding fetched
download_wasm a name files = fetched a name a.answer files

module _ (paths : Paths) where
  open paths use {sha256, absolute}

  unfoldable pub url_to_filename : Bytes → Bytes
  unfolding last_part has_suffix
  url_to_filename url =
      let last = last_part [] url in
      if has_suffix last (codes ".wasm")
      then encode_hex (take 4 (sha256 url)) ++ b'_' ∷ last
      else encode_hex (sha256 url) ++ codes ".wasm"

  unfoldable pub file_url : Bytes → Bytes
  unfolding url_to_filename
  file_url url = codes "file://" ++ absolute (url_to_filename url)

  unfoldable pub cache_entry : Bytes → WasmRegistry → WasmRegistry
  unfolding file_url
  cache_entry url r = record r { cached = insert url (file_url url) r.cached }

  downloaded : Bytes → WasmRegistry → Bool × Files → Result WasmError Bytes × WasmRegistry
  unfolding cache_entry
  downloaded url r (true, files) = (ok (file_url url), cache_entry url (record r { files = files }))
  downloaded url r (false, files) = (err (download_failed url), record r { files = files })

  uncached : Attempt → Bytes → WasmRegistry → Result WasmError Bytes × WasmRegistry
  unfolding downloaded download_wasm is_present url_to_filename
  uncached a url r =
      if is_present (url_to_filename url) r.files
      then (ok (file_url url), cache_entry url r)
      else downloaded url r (download_wasm a (url_to_filename url) r.files)

  looked_up : Option Bytes → Attempt → Bytes → WasmRegistry → Result WasmError Bytes × WasmRegistry
  unfolding uncached
  looked_up (some path) a url r = (ok path, r)
  looked_up none a url r = uncached a url r

  unfoldable pub ensure_wasm :
      Attempt → Bytes → WasmRegistry → Result WasmError Bytes × WasmRegistry
  unfolding looked_up
  ensure_wasm a url r = looked_up (lookup url r.cached) a url r

unfoldable pub get_local_path : Bytes → WasmRegistry → Option Bytes
get_local_path url r = lookup url r.cached
