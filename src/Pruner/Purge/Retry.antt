-- ===== src/Pruner/Purge/Retry.antt =====
-- A purge that fails loses nothing: what it drained is back in the queue, in order.
use shinzo_host_client.Prelude.{
  ℕ, ◌≡◌, ◌≢◌, refl, ◌∙◌, ap, String, Bool, true, false, none, some, List, [], ◌∷◌, ◌++◌, ◌==◌,
  nat_eq, string_eq, if◌then◌else◌, All, ==_refl, arith, Option-cases, inl, inr,
}
use shinzo_host_client.Prelude.Int.{ℤ}
use shinzo_host_client.Pruner.DocId.{Bytes}
use shinzo_host_client.Pruner.DocId.RoundTrip.{HasNoDash}
use shinzo_host_client.Pruner.Documents.{Defra, purge_by_doc_ids}
use shinzo_host_client.Pruner.Queue.{Entry, Store, DrainResult, docs_at, requeue}
use shinzo_host_client.Pruner.Queue.Grouping.{docs_of}
use shinzo_host_client.Pruner.Queue.Invariant.{HasUuid}
use shinzo_host_client.Pruner.Queue.Requeue.{of_collection, Registers, requeue-docs_of}
use shinzo_host_client.Pruner.Purge.{settle, purge_listed, purge_collections}

of_collection-append :
    (col : ℕ) (xs ys : List Entry)
    → of_collection col (xs ++ ys) ≡ of_collection col xs ++ of_collection col ys
unfolding of_collection
of_collection-append col [] ys = refl
of_collection-append col (e ∷ xs) ys = ground (arith, of_collection-append col xs ys)

of_collection-of_collection :
    (col j : ℕ) (xs : List Entry)
    → of_collection col (of_collection j xs) ≡ (if j == col then of_collection col xs else [])
unfolding of_collection
of_collection-of_collection col j [] = ground arith
of_collection-of_collection col j (e ∷ xs) = ground (arith, of_collection-of_collection col j xs)

-- What stays fixed through a run: the prefix and the tables of names.
pub record SameTables (s t : Store) : Type 0 where
  pub prefix : t.prefix ≡ s.prefix
  pub names : t.collection_names ≡ s.collection_names
  pub enums : t.collection_enums ≡ s.collection_enums

-- Whether a collection's drained documents are purged; nothing to purge counts as purged.
unfoldable pub is_purged : Defra → Bool → String → List Bytes → Bool
is_purged db history name ids = elim (purge_by_doc_ids db history name ids) [
  | none ↦ false
  | some n ↦ true
]

-- What a purge leaves of a collection's drained entries.
unfoldable pub unpurged : Bool → List Entry → List Entry
unpurged true es = []
unpurged false es = es

pub Registers-SameTables :
    {s t : Store} {name : String} {col : ℕ}
    → SameTables s t
    → Registers s name col
    → Registers t name col
Registers-SameTables same reg = record {
  named = λ j. rw same.names (reg.named j);
  enumerated = rw same.enums reg.enumerated;
}

of_collection-unpurged_ne :
    (col j : ℕ) (xs ys : List Entry) (b : Bool)
    → j ≢ col
    → of_collection col (unpurged b (of_collection j xs) ++ ys) ≡ of_collection col ys
unfolding unpurged
of_collection-unpurged_ne col j xs ys true h = refl
of_collection-unpurged_ne col j xs ys false h =
    rw (of_collection-append col (of_collection j xs) ys, of_collection-of_collection col j xs)
      (ground (arith, h))

if_self : (col : ℕ) (xs : List Entry) → (if col == col then xs else []) ≡ xs
if_self col xs = rw (==_refl col)

of_collection-unpurged_self :
    (col : ℕ) (xs ys : List Entry) (b : Bool)
    → of_collection col (unpurged b (of_collection col xs) ++ ys)
      ≡ unpurged b (of_collection col xs) ++ of_collection col ys
unfolding unpurged
of_collection-unpurged_self col xs ys true = refl
of_collection-unpurged_self col xs ys false =
    of_collection-append col (of_collection col xs) ys
    ∙ ap (λ es. es ++ of_collection col ys)
        (of_collection-of_collection col col xs ∙ if_self col (of_collection col xs))

module _ (p : Bytes) (taken : List Entry) (s : Store) (captured : s.prefix ≡ some p)
    (clean : HasNoDash p) (uuids : All HasUuid taken) where
  -- Putting a collection back.
  requeue-SameTables :
      (name : String) (col : ℕ) (t : Store) (ids : List Bytes)
      → Registers s name col
      → SameTables s t
      → ids ≡ docs_of s.prefix s.collection_names name taken
      → SameTables s (requeue name ids t)
        × ((requeue name ids t).entries ≡ of_collection col taken ++ t.entries)
  requeue-SameTables name col t ids reg same e =
      let (es, prefix, names, enums) =
        requeue-docs_of p name col taken t (same.prefix ∙ captured) clean
          (Registers-SameTables same reg) uuids in
      let f : docs_of t.prefix t.collection_names name taken ≡ ids =
        rw (e, same.prefix, same.names) in
      (
        record {
          prefix = rw (← f) prefix ∙ same.prefix;
          names = rw (← f) names ∙ same.names;
          enums = rw (← f) enums ∙ same.enums;
        },
        rw (← f) es,
      )

  -- One collection, purged or put back.
  purge_listed-unpurged :
      (db : Defra) (history : Bool) (name : String) (col : ℕ) (t : Store) (total : ℤ)
      (ids : List Bytes)
      → Registers s name col
      → SameTables s t
      → ids ≡ docs_of s.prefix s.collection_names name taken
      → SameTables s (purge_listed db history name ids (t, total)).0
        × ((purge_listed db history name ids (t, total)).0.entries
            ≡ unpurged (is_purged db history name ids) (of_collection col taken) ++ t.entries)
  unfolding purge_listed is_purged unpurged
  purge_listed-unpurged db history name col t total [] reg same e =
      (same, unfold purge_by_doc_ids in refl)
  purge_listed-unpurged db history name col t total (id ∷ ids) reg same e =
      elim (Option-cases (purge_by_doc_ids db history name (id ∷ ids))) [
        | inl failed ↦
            rw (failed, settle, is_purged) (requeue-SameTables name col t (id ∷ ids) reg same e)
        | inr (n, done) ↦ rw (done, settle, is_purged) (same, refl)
      ]

  -- The loop over the collections, each with a byte of its own.
  module _ (db : Defra) (history : Bool) (r : DrainResult)
      (reports : (name : String)
        → docs_at name r.doc_ids_by_collection ≡ docs_of s.prefix s.collection_names name taken)
      (byte : String → ℕ) where
    abbrev one : String → Store → ℤ → Store × ℤ
    one name t total =
        purge_listed db history name (docs_at name r.doc_ids_by_collection) (t, total)

    loop_other :
        (col : ℕ) (names : List String) (t : Store) (total : ℤ)
        → All (λ n. Registers s n (byte n) × (byte n ≢ col)) names
        → SameTables s t
        → SameTables s (purge_collections db history r names (t, total)).0
          × (of_collection col (purge_collections db history r names (t, total)).0.entries
              ≡ of_collection col t.entries)
    unfolding purge_collections
    loop_other col [] t total regs same = (same, refl)
    loop_other col (n ∷ names) t total regs same =
        let (same', es) =
          purge_listed-unpurged db history n (byte n) t total _ regs.0.0 same (reports n) in
        let (same'', rest) =
          loop_other col names (one n t total).0 (one n t total).1 regs.1 same' in
        (
          same'',
          rest
              ∙ ap (of_collection col) es
              ∙ of_collection-unpurged_ne col (byte n) taken t.entries _ regs.0.1,
        )

    -- The collection `name`, which stands once in the list.
    pub loop_self :
        (name : String) (before after : List String) (t : Store) (total : ℤ)
        → All (λ n. Registers s n (byte n) × (byte n ≢ byte name)) before
        → Registers s name (byte name)
        → All (λ n. Registers s n (byte n) × (byte n ≢ byte name)) after
        → SameTables s t
        → of_collection
            (byte name)
            (purge_collections db history r (before ++ name ∷ after) (t, total)).0.entries
          ≡ unpurged
              (is_purged db history name (docs_at name r.doc_ids_by_collection))
              (of_collection (byte name) taken)
            ++ of_collection (byte name) t.entries
    unfolding purge_collections
    loop_self name [] after t total none_before reg regs same =
        let (same', es) =
          purge_listed-unpurged db history name (byte name) t total _ reg same (reports name) in
        let (same'', rest) =
          loop_other (byte name) after (one name t total).0 (one name t total).1 regs same' in
        rest
        ∙ ap (of_collection (byte name)) es
        ∙ of_collection-unpurged_self (byte name) taken t.entries _
    loop_self name (n ∷ before) after t total earlier reg regs same =
        let (same', es) =
          purge_listed-unpurged db history n (byte n) t total _ earlier.0.0 same (reports n) in
        loop_self name before after (one n t total).0 (one n t total).1 earlier.1 reg regs same'
        ∙ ap
            (λ es'.
              unpurged (is_purged db history name (docs_at name r.doc_ids_by_collection))
                (of_collection (byte name) taken)
              ++ es')
            (ap (of_collection (byte name)) es
              ∙ of_collection-unpurged_ne (byte name) (byte n) taken t.entries _ earlier.0.1)

pub purge_collections-append :
    (db : Defra) (history : Bool) (r : DrainResult) (xs ys : List String) (acc : Store × ℤ)
    → purge_collections db history r (xs ++ ys) acc
      ≡ purge_collections db history r ys (purge_collections db history r xs acc)
unfolding purge_collections
purge_collections-append db history r [] ys acc = refl
purge_collections-append db history r (x ∷ xs) ys acc =
    purge_collections-append db history r xs ys _
