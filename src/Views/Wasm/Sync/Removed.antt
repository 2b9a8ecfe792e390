-- ===== src/Views/Wasm/Sync/Removed.antt =====
-- What the removal of unused files forgets: wasmRegistry.go.
use shinzo_host_client.Prelude.{
  ℕ, ◌+◌, ◌≡◌, ◌≢◌, refl, Bool, true, not, ◌&&◌, none, some, List, [], ◌∷◌, ◌==◌, lookup, delete,
  lookup-delete, contains, map, arith, ==_iff, inl, inr, Bool-cases,
}
use shinzo_host_client.Prelude.Bytes.{bytes_eq, codes}
use shinzo_host_client.Prelude.Results.{ok}
use shinzo_host_client.Pruner.DocId.{Bytes}
use shinzo_host_client.Views.Wasm.{
  Files, Attempt, Paths, WasmRegistry, has_suffix, url_to_filename, looked_up, ensure_wasm,
}
use shinzo_host_client.Views.Wasm.Sync.{remove_unused, cleaned, cleanup_unused}

module _ (paths : Paths) (removes : Bytes → Bool) (active : List Bytes) where
  -- What is gone stays so.
  remove_unused-gone :
      (names : List Bytes) (removed : ℕ) (files : Files) (name : Bytes)
      → lookup name files ≡ none
      → lookup name (remove_unused paths removes active names (removed, files)).1 ≡ none
  unfolding remove_unused
  remove_unused-gone [] removed files name gone = gone
  remove_unused-gone (other ∷ names) removed files name gone =
      elim (Bool-cases
        (has_suffix other (codes ".wasm") && not (contains active other) && removes other)) [
          | inl goes ↦ rw goes (
              remove_unused-gone names (removed + 1) (delete other files) name
                (ground (arith, gone, lookup-delete other name files)))
          | inr stays ↦ rw stays (remove_unused-gone names removed files name gone)
        ]

  remove_unused-removes :
      (names : List Bytes) (removed : ℕ) (files : Files) (name : Bytes)
      → contains names name ≡ true
      → (has_suffix name (codes ".wasm") && not (contains active name) && removes name) ≡ true
      → lookup name (remove_unused paths removes active names (removed, files)).1 ≡ none
  unfolding remove_unused contains
  remove_unused-removes [] removed files name listed unused = ground (arith, listed)
  remove_unused-removes (other ∷ names) removed files name listed unused =
      elim (Bool-cases (other == name)) [
        | inl same ↦ rw ((==_iff other name).0 same) (
            rw unused (
              remove_unused-gone names (removed + 1) (delete name files) name
                (ground (arith, lookup-delete name name files, ==_iff name name))))
        | inr differs ↦
            let later : contains names name ≡ true = ground (arith, listed, differs) in
            elim (Bool-cases
              (has_suffix other (codes ".wasm") && not (contains active other) && removes other)) [
                | inl goes ↦ rw goes (
                    remove_unused-removes names (removed + 1) (delete other files) name later
                      unused)
                | inr stays ↦ rw stays (remove_unused-removes names removed files name later unused)
              ]
      ]

has_name :
    (files : Files) (name : Bytes)
    → lookup name files ≢ none
    → contains (map (λ f. f.0) files) name ≡ true
unfolding lookup contains
has_name [] name there = absurd (there refl)
has_name ((other, content) ∷ files) name there = elim (Bool-cases (other == name)) [
  | inl same ↦ ground (arith, same)
  | inr differs ↦
      ground (arith, differs, has_name files name (λ e. there (ground (arith, e, differs))))
]

module _ (paths : Paths) (removes : Bytes → Bool) where
  -- If the directory can be read, a WASM file that is there, is of no active URL and can be removed is
  -- gone after the removal of unused files; where its path was remembered for a URL, the path is
  -- returned for that URL from then on, without another download.
  pub cleanup_unused-dangles :
      (active : List Bytes) (url path : Bytes) (r : WasmRegistry) (a : Attempt)
      → lookup url r.cached ≡ some path
      → lookup (url_to_filename paths url) r.files ≢ none
      → (has_suffix (url_to_filename paths url) (codes ".wasm")
          && not (contains (map (url_to_filename paths) active) (url_to_filename paths url))
          && removes (url_to_filename paths url))
        ≡ true
      → (lookup (url_to_filename paths url) (cleanup_unused paths true removes active r).1.files
          ≡ none)
        × (ensure_wasm paths a url (cleanup_unused paths true removes active r).1
            ≡ (ok path, (cleanup_unused paths true removes active r).1))
  unfolding cleanup_unused cleaned ensure_wasm looked_up
  cleanup_unused-dangles active url path r a remembered there unused = (
    remove_unused-removes paths removes (map (url_to_filename paths) active)
        (map (λ f. f.0) r.files) 0 r.files (url_to_filename paths url)
        (has_name r.files (url_to_filename paths url) there) unused,
    rw remembered refl,
  )
