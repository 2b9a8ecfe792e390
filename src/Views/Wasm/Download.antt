-- ===== src/Views/Wasm/Download.antt =====
-- What a download leaves in the directory: wasmRegistry.go.
use shinzo_host_client.Prelude.{
  ℕ, ◌≡◌, ◌≢◌, ◌⊎◌, inl, inr, refl, sym, Bool, true, false, not, Option, none, some, ◌==◌, nat_eq,
  nat_beq_iff, if◌then◌else◌, lookup, insert, delete, lookup-insert, lookup-delete, arith, ==_iff,
  Bool-cases,
}
use shinzo_host_client.Prelude.Bytes.{bytes_eq}
use shinzo_host_client.Pruner.DocId.{Bytes}
use shinzo_host_client.Views.Wasm.{Files, Attempt, temporary, copied, fetched, download_wasm}

-- A file is what it was.
abbrev pub IsUnchanged : Bytes → Files → Files → Type 0
IsUnchanged name before after = lookup name after ≡ lookup name before

-- The download succeeded with a whole body, and the file of this name holds it.
pub record IsDownloaded (a : Attempt) (name : Bytes) (out : Bool × Files) : Type 0 where
  pub body : Bytes
  pub answer : a.answer ≡ some (200, some body)
  pub succeeds : out.0 ≡ true
  pub holds : lookup name out.1 ≡ some (some body)

module _ (a : Attempt) (name other : Bytes) (files : Files) (apart : other ≢ temporary name) where
  abbrev pub Outcome : Bool × Files → Type 0
  Outcome out = IsUnchanged other files out.1 ⊎ ((other ≡ name) × IsDownloaded a name out)

  inserted :
      (content : Option Bytes) → IsUnchanged other files (insert (temporary name) content files)
  inserted content = ground (
    arith,
    apart,
    lookup-insert (temporary name) other content files,
    ==_iff (temporary name) other,
  )

  deleted : IsUnchanged other files (delete (temporary name) files)
  deleted =
      ground
        (arith, apart, lookup-delete (temporary name) other files, ==_iff (temporary name) other)

  copied-Outcome :
      (status : ℕ) (body : Option Bytes)
      → a.answer ≡ some (status, body)
      → status ≡ 200
      → Outcome (copied a name body files)
  unfolding copied
  copied-Outcome status none e s = elim (Bool-cases a.removes) [
    | inl h ↦ rw h (inl deleted)
    | inr h ↦ rw h (inl (inserted none))
  ]
  copied-Outcome status (some body) e s = elim (Bool-cases a.renames) [
    | inl h ↦ rw h (elim (Bool-cases (name == other)) [
      | inl same ↦ inr (
        sym ((==_iff name other).0 same),
        record {
          body = body;
          answer = rw (← s) e;
          succeeds = refl;
          holds = ground (
            arith,
            lookup-insert name name (some body) (delete (temporary name) files),
            ==_iff name name,
          );
        },
      )
      | inr differs ↦ inl (
          ground (
            arith,
            differs,
            deleted,
            lookup-insert name other (some body) (delete (temporary name) files),
          ))
    ])
    | inr h ↦ rw h (inl (inserted (some body)))
  ]

  -- Whatever meets a download, a file other than its temporary one is afterwards what it was, or it is
  -- the file downloaded, the answer had status 200, and the file holds its whole body.
  pub download_wasm-IsAtomic : Outcome (download_wasm a name files)
  unfolding download_wasm fetched
  download_wasm-IsAtomic = go a.answer refl
    where
      created :
          (status : ℕ) (body : Option Bytes)
          → a.answer ≡ some (status, body)
          → status ≡ 200
          → (creates : Bool)
          → Outcome (if not creates then (false, files) else copied a name body files)
      created status body e s true = copied-Outcome status body e s
      created status body e s false = inl refl

      go :
          (answer : Option (ℕ × Option Bytes))
          → a.answer ≡ answer
          → Outcome (fetched a name answer files)
      go none e = inl refl
      go (some (status, body)) e = elim (Bool-cases (status == 200)) [
        | inl ok_status ↦
            rw ok_status (created status body e ((nat_beq_iff status 200).0 ok_status) a.creates)
        | inr other_status ↦ rw other_status (inl refl)
      ]

copied-holds :
    (a : Attempt) (name : Bytes) (body : Option Bytes) (files : Files)
    → (copied a name body files).0 ≡ true
    → lookup name (copied a name body files).1 ≢ none
unfolding copied
copied-holds a name none files h e = ground (arith, h)
copied-holds a name (some body) files h e = ground (
  arith,
  h,
  e,
  lookup-insert name name (some body) (delete (temporary name) files),
  ==_iff name name,
)

-- A download that succeeds leaves the file.
pub download_wasm-holds :
    (a : Attempt) (name : Bytes) (files : Files)
    → (download_wasm a name files).0 ≡ true
    → lookup name (download_wasm a name files).1 ≢ none
unfolding download_wasm
download_wasm-holds a name files h = go a.answer h
  where
    go :
        (answer : Option (ℕ × Option Bytes))
        → (fetched a name answer files).0 ≡ true
        → lookup name (fetched a name answer files).1 ≢ none
    go none k e = unfold fetched in ground (arith, k)
    go (some (status, body)) k e =
        unfold fetched in ground (arith, k, e, copied-holds a name body files)
