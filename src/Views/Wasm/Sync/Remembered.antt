-- ===== src/Views/Wasm/Sync/Remembered.antt =====
-- What is remembered of the WASM files: wasmRegistry.go.
use shinzo_host_client.Prelude.{
  ℕ, ◌-◌, ◌≡◌, ◌≢◌, ◌∙◌, inl, inr, refl, sym, ap, Bool, true, false, Option, none, some, [], ◌∷◌,
  ◌++◌, ◌==◌, length, take, drop, take-append-drop, lookup, lookup-insert, arith, ==_iff,
  Bool-cases,
}
use shinzo_host_client.Prelude.Bytes.{bytes_eq, codes}
use shinzo_host_client.Pruner.DocId.{Bytes, encode_hex}
use shinzo_host_client.Views.Wasm.{
  Files, Attempt, Paths, WasmRegistry, has_suffix, last_part, exists, is_present, temporary,
  download_wasm, url_to_filename, file_url, cache_entry, downloaded, uncached, looked_up,
  ensure_wasm,
}
use shinzo_host_client.Views.Wasm.Download.{download_wasm-IsAtomic, download_wasm-holds}

-- The last byte, or 0.
final : Bytes → ℕ
final [] = 0
final (c ∷ []) = c
final (c ∷ d ∷ s) = final (d ∷ s)

final-append : (s : Bytes) (c : ℕ) (t : Bytes) → final (s ++ c ∷ t) ≡ final (c ∷ t)
unfolding final
final-append [] c t = refl
final-append (a ∷ []) c t = refl
final-append (a ∷ b ∷ s) c t = final-append (b ∷ s) c t

final-temporary : (name : Bytes) → final (temporary name) ≡ b'p'
unfolding temporary final
final-temporary name = final-append name b'.' (codes "tmp")

final-has_suffix : (s : Bytes) → has_suffix s (codes ".wasm") ≡ true → final s ≡ b'm'
unfolding has_suffix final
final-has_suffix s h =
    let n = length s - 5 in
    let tail : drop n s ≡ codes ".wasm" =
      (==_iff (drop n s) (codes ".wasm")).0 (ground (arith, h)) in
    ap final (sym (take-append-drop n s))
    ∙ ap (λ t. final (take n s ++ t)) tail
    ∙ final-append (take n s) b'.' (codes "wasm")

final-cons : (c : ℕ) (s : Bytes) → final s ≡ b'm' → final (c ∷ s) ≡ b'm'
unfolding final
final-cons c [] h = absurd (omega (arith, h))
final-cons c (d ∷ s) h = h

exists-some : (content : Option (Option Bytes)) → exists content ≡ true → content ≢ none
unfolding exists
exists-some none h e = ground (arith, h)
exists-some (some content) h e = ground (arith, e)

module _ (paths : Paths) where
  final-url_to_filename : (url : Bytes) → final (url_to_filename paths url) ≡ b'm'
  unfolding url_to_filename final
  final-url_to_filename url = elim (Bool-cases (has_suffix (last_part [] url) (codes ".wasm"))) [
    | inr h ↦ rw h (final-append (encode_hex (paths.sha256 url)) b'.' (codes "wasm"))
    | inl h ↦
        let last = last_part [] url in
        rw h (
          final-append (encode_hex (take 4 (paths.sha256 url))) b'_' last
          ∙ final-cons b'_' last (final-has_suffix last h))
  ]

  apart : (url name : Bytes) → url_to_filename paths url ≢ temporary name
  apart url name e =
      omega (arith, sym (final-url_to_filename url) ∙ ap final e ∙ final-temporary name)

  -- Where a file is.
  abbrev pub IsThere : Bytes → Files → Type 0
  IsThere url files = lookup (url_to_filename paths url) files ≢ none

  download_wasm-IsThere :
      (a : Attempt) (name url : Bytes) (files : Files)
      → IsThere url files
      → IsThere url (download_wasm a name files).1
  download_wasm-IsThere a name url files h =
      elim (download_wasm-IsAtomic a name (url_to_filename paths url) files (apart url name)) [
        | inl same ↦ λ e. h (sym same ∙ e)
        | inr (it, done) ↦ λ e. ground (arith, rw (← it) at done.holds, e)
      ]

  -- Every path remembered is that of its URL's file, which is in the directory.
  abbrev pub IsRemembered : WasmRegistry → Type 0
  IsRemembered r =
      (url path : Bytes)
      → lookup url r.cached ≡ some path
      → (path ≡ file_url paths url) × IsThere url r.files

  pub cache_entry-IsRemembered :
      (url : Bytes) (r : WasmRegistry)
      → IsThere url r.files
      → IsRemembered r
      → IsRemembered (cache_entry paths url r)
  unfolding cache_entry
  cache_entry-IsRemembered url r there all other path e = elim (Bool-cases (url == other)) [
    | inl same ↦
        let it = (==_iff url other).0 same in
        (
          ground (arith, e, same, it, lookup-insert url other (file_url paths url) r.cached),
          rw (← it) there,
        )
    | inr differs ↦
        all other path
          (ground (arith, e, differs, lookup-insert url other (file_url paths url) r.cached))
  ]

  pub with_files-IsRemembered :
      (a : Attempt) (name : Bytes) (r : WasmRegistry)
      → IsRemembered r
      → IsRemembered (record r { files = (download_wasm a name r.files).1 })
  with_files-IsRemembered a name r all url path e =
      let (is, there) = all url path e in (is, download_wasm-IsThere a name url r.files there)

  pub is_present-IsThere :
      (url : Bytes) (files : Files)
      → is_present (url_to_filename paths url) files ≡ true
      → IsThere url files
  unfolding is_present
  is_present-IsThere url files h = exists-some (lookup (url_to_filename paths url) files) h

  downloaded-IsRemembered :
      (url : Bytes) (r : WasmRegistry) (out : Bool × Files)
      → (out.0 ≡ true → IsThere url out.1)
      → IsRemembered (record r { files = out.1 })
      → IsRemembered (downloaded paths url r out).1
  unfolding downloaded
  downloaded-IsRemembered url r (true, files) there all =
      cache_entry-IsRemembered url (record r { files = files }) (there refl) all
  downloaded-IsRemembered url r (false, files) there all = all

  pub ensure_wasm-IsRemembered :
      (a : Attempt) (url : Bytes) (r : WasmRegistry)
      → IsRemembered r
      → IsRemembered (ensure_wasm paths a url r).1
  unfolding ensure_wasm
  ensure_wasm-IsRemembered a url r all = go (lookup url r.cached)
    where
      name : Bytes
      name = url_to_filename paths url

      go : (path : Option Bytes) → IsRemembered (looked_up paths path a url r).1
      go (some path) = unfold looked_up in all
      go none =
          unfold looked_up uncached in
          elim (Bool-cases (is_present name r.files)) [
            | inl found ↦
                rw found (cache_entry-IsRemembered url r (is_present-IsThere url r.files found) all)
            | inr missing ↦ rw missing (
                downloaded-IsRemembered url r (download_wasm a name r.files)
                  (download_wasm-holds a name r.files) (with_files-IsRemembered a name r all))
          ]
