-- ===== src/Attestation/Record/Batch/Handed.antt =====
-- The documents of a batch that are handed to the database: attestationRecordService.go.
use shinzo_host_client.Prelude.{
  ◌≡◌, ◌∙◌, refl, sym, ap, String, true, false, Option, none, some, List, [], ◌∷◌, ◌++◌, ◌==◌,
  string_eq, ==_iff, Map, lookup, lookup-insert, contains, Any, arith, Bool-cases, inl, inr, ◌⊎◌,
  if◌then◌else◌,
}
use shinzo_host_client.Attestation.Record.{
  Record, Stored, merge_into, Slot, updated, created, is_empty, slot, post_one, post_all, look_up,
  look_up_all, existing_values, post_attestation_records_batch,
}
use shinzo_host_client.Attestation.Record.Batch.{Holds, Attests, post_one-found, post_all-Attests}

Any-append : {A : Type 0} (P : A → Type 0) (xs ys : List A) → Any P xs ⊎ Any P ys → Any P (xs ++ ys)
Any-append P [] ys (inl h) = absurd h
Any-append P [] ys (inr h) = h
Any-append P (x ∷ xs) ys (inl (inl h)) = inl h
Any-append P (x ∷ xs) ys (inl (inr h)) = inr (Any-append P xs ys (inl h))
Any-append P (x ∷ xs) ys (inr h) = inr (Any-append P xs ys (inr h))

pub contains-nonempty :
    (cids : List String) (cid : String) → contains cids cid ≡ true → is_empty cids ≡ false
unfolding contains is_empty
contains-nonempty [] cid h = absurd (ground (arith, h))
contains-nonempty (c ∷ cids) cid h = refl

-- A slot of a new document that holds the CID.
abbrev pub IsNew : String → String → Slot → Type 0
IsNew key cid s =
    (r : Record) × (s ≡ created r) × (r.attested_doc_id ≡ key) × (contains r.cids cid ≡ true)

-- The document that is stored under `key`, or a new one, is among those handed over, with the CID.
abbrev pub Hands : Map String Stored × List Slot → Option Stored → String → String → Type 0
Hands docs none key cid = Any (IsNew key cid) docs.1
Hands docs (some doc) key cid = Any (λ s. s ≡ updated key) docs.1 × Holds docs.0 key cid

abbrev pub IsHeld : Option Stored → String → Type 0
IsHeld none cid = ⊥
IsHeld (some doc) cid = contains (existing_values doc.cids) cid ≡ true

-- The lookups for one document.
module _ (find : String → Option Stored) (key : String) where
  look_up-some :
      (r : Record) (found : Map String Stored) (doc : Stored)
      → is_empty r.cids ≡ false
      → find r.attested_doc_id ≡ some doc
      → lookup key (look_up find r found)
        ≡ (if r.attested_doc_id == key then find key else lookup key found)
  unfolding look_up
  look_up-some r found doc some_cid e =
      rw (some_cid, e)
        (lookup-insert r.attested_doc_id key doc found
          ∙ elim (Bool-cases (r.attested_doc_id == key)) [
            | inl same ↦ rw same (sym e ∙ ap find ((==_iff r.attested_doc_id key).0 same))
            | inr other ↦ rw other refl
          ])

  look_up-none :
      (r : Record) (found : Map String Stored)
      → find r.attested_doc_id ≡ none
      → look_up find r found ≡ found
  unfolding look_up
  look_up-none r found e = elim (Bool-cases (is_empty r.cids)) [
    | inl empty ↦ rw empty refl
    | inr some_cid ↦ rw (some_cid, e) refl
  ]

  -- What a lookup leaves for `key` is what was there, or what is stored.
  look_up-cases :
      (r : Record) (found : Map String Stored)
      → (lookup key (look_up find r found) ≡ lookup key found)
        ⊎ (lookup key (look_up find r found) ≡ find key)
  look_up-cases r found = elim (Bool-cases (is_empty r.cids)) [
    | inl empty ↦ inl (unfold look_up in rw empty refl)
    | inr some_cid ↦ go some_cid (find r.attested_doc_id) refl
  ]
    where
      go :
          is_empty r.cids ≡ false
          → (o : Option Stored) → find r.attested_doc_id ≡ o
          → (lookup key (look_up find r found) ≡ lookup key found)
            ⊎ (lookup key (look_up find r found) ≡ find key)
      go some_cid none e = inl (ap (lookup key) (look_up-none r found e))
      go some_cid (some doc) e = elim (Bool-cases (r.attested_doc_id == key)) [
        | inl same ↦ inr (look_up-some r found doc some_cid e ∙ rw same refl)
        | inr other ↦ inl (look_up-some r found doc some_cid e ∙ rw other refl)
      ]

  look_up-named :
      (r : Record) (found : Map String Stored)
      → is_empty r.cids ≡ false
      → r.attested_doc_id ≡ key
      → (lookup key found ≡ none) ⊎ (lookup key found ≡ find key)
      → lookup key (look_up find r found) ≡ find key
  look_up-named r found some_cid same h = go (find r.attested_doc_id) refl h
    where
      go :
          (o : Option Stored)
          → find r.attested_doc_id ≡ o
          → (lookup key found ≡ none) ⊎ (lookup key found ≡ find key)
          → lookup key (look_up find r found) ≡ find key
      go (some doc) e k =
          look_up-some r found doc some_cid e ∙ rw ((==_iff r.attested_doc_id key).1 same) refl
      go none e (inl nothing) =
          ap (lookup key) (look_up-none r found e) ∙ nothing ∙ sym e ∙ ap find same
      go none e (inr there) = ap (lookup key) (look_up-none r found e) ∙ there

  look_up_all-same :
      (records : List (Option Record)) (found : Map String Stored)
      → lookup key found ≡ find key
      → lookup key (look_up_all find records found) ≡ find key
  unfolding look_up_all
  look_up_all-same [] found h = h
  look_up_all-same (none ∷ records) found h = look_up_all-same records found h
  look_up_all-same (some r ∷ records) found h =
      look_up_all-same records (look_up find r found)
        (elim (look_up-cases r found) [ inl kept ↦ kept ∙ h | inr there ↦ there ])

  look_up_all-named :
      (cid : String) (records : List (Option Record)) (found : Map String Stored)
      → Attests key cid records
      → (lookup key found ≡ none) ⊎ (lookup key found ≡ find key)
      → lookup key (look_up_all find records found) ≡ find key
  unfolding look_up_all
  look_up_all-named cid [] found a h = absurd a
  look_up_all-named cid (none ∷ records) found a h = look_up_all-named cid records found a h
  look_up_all-named cid (some r ∷ records) found (inl (same, attests)) h =
      look_up_all-same records (look_up find r found)
        (look_up-named r found (contains-nonempty r.cids cid attests) same h)
  look_up_all-named cid (some r ∷ records) found (inr later) h =
      look_up_all-named cid records (look_up find r found) later (elim (look_up-cases r found) [
        | inl kept ↦ (elim h [
          | inl nothing ↦ inl (kept ∙ nothing)
          | inr there ↦ inr (kept ∙ there)
        ])
        | inr there ↦ inr there
      ])

-- The documents of one record are handed over behind those so far.
post_one-keeps :
    (P : Slot → Type 0) (r : Record) (existing : Map String Stored) (docs : List Slot)
    → Any P docs
    → Any P (post_one r (existing, docs)).1
unfolding post_one
post_one-keeps P r existing docs h = elim (Bool-cases (is_empty r.cids)) [
  | inl empty ↦ rw empty h
  | inr some_cid ↦ rw some_cid (Any-append P docs (_ ∷ []) (inl h))
]

post_all-keeps :
    (P : Slot → Type 0) (records : List (Option Record)) (existing : Map String Stored)
    (docs : List Slot)
    → Any P docs
    → Any P (post_all records (existing, docs)).1
unfolding post_all
post_all-keeps P [] existing docs h = h
post_all-keeps P (none ∷ records) existing docs h = post_all-keeps P records existing docs h
post_all-keeps P (some r ∷ records) existing docs h =
    let acc = post_one r (existing, docs) in
    post_all-keeps P records acc.0 acc.1 (post_one-keeps P r existing docs h)

module _ (key cid : String) (r : Record) (existing : Map String Stored) (docs : List Slot) where
  post_one-updated :
      {doc : Stored}
      → lookup key existing ≡ some doc
      → r.attested_doc_id ≡ key
      → contains r.cids cid ≡ true
      → Any (λ s. s ≡ updated key) (post_one r (existing, docs)).1
  unfolding post_one slot
  post_one-updated found same attests =
      rw (contains-nonempty r.cids cid attests, ap (λ k. lookup k existing) same ∙ found)
        (Any-append (λ s. s ≡ updated key) docs (updated r.attested_doc_id ∷ [])
          (inr (inl (ap updated same))))

  post_one-created :
      lookup key existing ≡ none
      → r.attested_doc_id ≡ key
      → contains r.cids cid ≡ true
      → Any (IsNew key cid) (post_one r (existing, docs)).1
  unfolding post_one slot
  post_one-created nothing same attests =
      rw (contains-nonempty r.cids cid attests, ap (λ k. lookup k existing) same ∙ nothing)
        (Any-append (IsNew key cid) docs (created r ∷ []) (inr (inl (r, refl, same, attests))))

  -- A document that was not found is not found later.
  post_one-none : lookup key existing ≡ none → lookup key (post_one r (existing, docs)).0 ≡ none
  unfolding post_one
  post_one-none nothing = elim (Bool-cases (is_empty r.cids)) [
    | inl empty ↦ rw empty nothing
    | inr some_cid ↦ rw some_cid (go (lookup r.attested_doc_id existing) refl)
  ]
    where
      go :
          (o : Option Stored)
          → lookup r.attested_doc_id existing ≡ o
          → lookup key (slot r.attested_doc_id o existing r).0 ≡ none
      go none e = unfold slot in nothing
      go (some other) e =
          unfold slot in
          elim (Bool-cases (r.attested_doc_id == key)) [
            | inl same ↦
                let k = (==_iff r.attested_doc_id key).0 same in
                absurd (ground (arith, sym e ∙ ap (λ k. lookup k existing) k ∙ nothing))
            | inr different ↦
                lookup-insert r.attested_doc_id key (merge_into other r) existing
                ∙ rw different nothing
          ]

post_all-updated :
    (key cid : String) (records : List (Option Record)) (existing : Map String Stored)
    (docs : List Slot) (doc : Stored)
    → lookup key existing ≡ some doc
    → Attests key cid records
    → Any (λ s. s ≡ updated key) (post_all records (existing, docs)).1
unfolding post_all
post_all-updated key cid [] existing docs doc found a = absurd a
post_all-updated key cid (none ∷ records) existing docs doc found a =
    post_all-updated key cid records existing docs doc found a
post_all-updated key cid (some r ∷ records) existing docs doc found (inl (same, attests)) =
    let acc = post_one r (existing, docs) in
    post_all-keeps (λ s. s ≡ updated key) records acc.0 acc.1
      (post_one-updated key cid r existing docs found same attests)
post_all-updated key cid (some r ∷ records) existing docs doc found (inr later) =
    let acc = post_one r (existing, docs) in
    let (doc', found') = post_one-found key cid r existing docs found in
    post_all-updated key cid records acc.0 acc.1 doc' found' later

post_all-created :
    (key cid : String) (records : List (Option Record)) (existing : Map String Stored)
    (docs : List Slot)
    → lookup key existing ≡ none
    → Attests key cid records
    → Any (IsNew key cid) (post_all records (existing, docs)).1
unfolding post_all
post_all-created key cid [] existing docs nothing a = absurd a
post_all-created key cid (none ∷ records) existing docs nothing a =
    post_all-created key cid records existing docs nothing a
post_all-created key cid (some r ∷ records) existing docs nothing (inl (same, attests)) =
    let acc = post_one r (existing, docs) in
    post_all-keeps (IsNew key cid) records acc.0 acc.1
      (post_one-created key cid r existing docs nothing same attests)
post_all-created key cid (some r ∷ records) existing docs nothing (inr later) =
    let acc = post_one r (existing, docs) in
    post_all-created key cid records acc.0 acc.1 (post_one-none key cid r existing docs nothing)
      later

-- A document that a record of the batch attests is handed over with every CID that it is stored with,
-- and every CID that a record of the batch attests for it.
pub post_attestation_records_batch-Hands :
    (find : String → Option Stored) (records : List (Option Record)) (key other cid : String)
    → Attests key other records
    → IsHeld (find key) cid ⊎ Attests key cid records
    → Hands (post_attestation_records_batch find records) (find key) key cid
unfolding post_attestation_records_batch
post_attestation_records_batch-Hands find records key other cid named held =
    go (find key) (look_up_all-named find key other records [] named (inl (unfold lookup in refl)))
      held
  where
    go :
        (o : Option Stored)
        → lookup key (look_up_all find records []) ≡ o
        → IsHeld o cid ⊎ Attests key cid records
        → Hands (post_all records (look_up_all find records [], [])) o key cid
    go none nothing (inl h) = absurd h
    go none nothing (inr a) =
        post_all-created key cid records (look_up_all find records []) [] nothing a
    go (some doc) found h = (
      post_all-updated key other records (look_up_all find records []) [] doc found named,
      post_all-Attests key cid records (look_up_all find records []) [] doc found h,
    )
