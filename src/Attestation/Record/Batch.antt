-- ===== src/Attestation/Record/Batch.antt =====
-- What a batch of records leaves in the stored documents: attestationRecordService.go.
pub mod Handed
use shinzo_host_client.Prelude.{
  ◌≡◌, ◌∙◌, refl, ap, String, Bool, true, false, ◌||◌, Option, none, some, List, [], ◌∷◌, ◌==◌,
  string_eq, ==_iff, Map, lookup, lookup-insert, contains, arith, Bool-cases, inl, inr, ◌⊎◌,
}
use shinzo_host_client.Attestation.Record.{
  Record, Stored, map_some, values_of, existing_values, merge_string_list_field, merge_into, Slot,
  is_empty, slot, post_one, post_all,
}
use shinzo_host_client.Attestation.Record.Merging.{merge_string_list_field-contains}

-- The stored document of `key` is there and holds the CID.
abbrev pub Holds : Map String Stored → String → String → Type 0
Holds existing key cid =
    (doc : Stored) × (lookup key existing ≡ some doc)
    × (contains (existing_values doc.cids) cid ≡ true)

-- Some record of the batch attests the CID for `key`.
abbrev pub Attests : String → String → List (Option Record) → Type 0
Attests key cid [] = ⊥
Attests key cid (none ∷ records) = Attests key cid records
Attests key cid (some r ∷ records) =
    ((r.attested_doc_id ≡ key) × (contains r.cids cid ≡ true)) ⊎ Attests key cid records

values_of-map_some : (values : List String) → values_of (map_some values) ≡ values
unfolding values_of map_some
values_of-map_some [] = refl
values_of-map_some (s ∷ values) = ap (◌∷◌ s) (values_of-map_some values)

merge_into-cids :
    (doc : Stored) (r : Record) (cid : String)
    → contains (existing_values (merge_into doc r).cids) cid
      ≡ (contains (existing_values doc.cids) cid || contains r.cids cid)
unfolding merge_into existing_values
merge_into-cids doc r cid =
    rw (values_of-map_some (merge_string_list_field doc.cids r.cids))
      (merge_string_list_field-contains doc.cids r.cids cid).0

module _ (key cid : String) (r : Record) (existing : Map String Stored) (docs : List Slot) where
  post_one-Holds : Holds existing key cid → Holds (post_one r (existing, docs)).0 key cid
  unfolding post_one
  post_one-Holds (doc, found, held) = elim (Bool-cases (is_empty r.cids)) [
    | inl empty ↦ rw empty (doc, found, held)
    | inr some_cid ↦ rw some_cid (go (lookup r.attested_doc_id existing) refl)
  ]
    where
      cc_doc :
          (other : Stored)
          → lookup r.attested_doc_id existing ≡ some other
          → r.attested_doc_id ≡ key
          → other ≡ doc
      cc_doc other e k = cc

      kept :
          (other : Stored)
          → other ≡ doc
          → contains (existing_values (merge_into other r).cids) cid ≡ true
      kept other d = merge_into-cids other r cid ∙ rw (d, held) refl

      go :
          (o : Option Stored)
          → lookup r.attested_doc_id existing ≡ o
          → Holds (slot r.attested_doc_id o existing r).0 key cid
      go none e = unfold slot in (doc, found, held)
      go (some other) e =
          unfold slot in
          elim (Bool-cases (r.attested_doc_id == key)) [
            | inl same ↦ (
              merge_into other r,
              lookup-insert r.attested_doc_id key (merge_into other r) existing ∙ rw same refl,
              kept other (cc_doc other e ((==_iff r.attested_doc_id key).0 same)),
            )
            | inr different ↦ (
              doc,
              lookup-insert r.attested_doc_id key (merge_into other r) existing
                  ∙ rw different found,
              held,
            )
          ]

  post_one-Holds_new :
      {doc : Stored}
      → lookup key existing ≡ some doc
      → r.attested_doc_id ≡ key
      → contains r.cids cid ≡ true
      → Holds (post_one r (existing, docs)).0 key cid
  unfolding post_one slot
  post_one-Holds_new {doc} found same attests =
      rw (nonempty r.cids attests, ap (λ k. lookup k existing) same ∙ found)
        (
          merge_into doc r,
          lookup-insert r.attested_doc_id key (merge_into doc r) existing
              ∙ rw ((==_iff r.attested_doc_id key).1 same) refl,
          merge_into-cids doc r cid ∙ rw attests (orb (contains (existing_values doc.cids) cid)),
        )
    where
      nonempty : (cids : List String) → contains cids cid ≡ true → is_empty cids ≡ false
      nonempty [] h = absurd (unfold contains in ground arith)
      nonempty (c ∷ cids) h = unfold is_empty in refl

      orb : (b : Bool) → (b || true) ≡ true
      orb b = ground arith

  -- A document that was found stays found.
  post_one-found :
      {doc : Stored}
      → lookup key existing ≡ some doc
      → (doc' : Stored) × (lookup key (post_one r (existing, docs)).0 ≡ some doc')
  unfolding post_one
  post_one-found {doc} found = elim (Bool-cases (is_empty r.cids)) [
    | inl empty ↦ rw empty (doc, found)
    | inr some_cid ↦ rw some_cid (go (lookup r.attested_doc_id existing))
  ]
    where
      go :
          (o : Option Stored)
          → (doc' : Stored) × (lookup key (slot r.attested_doc_id o existing r).0 ≡ some doc')
      go none = unfold slot in (doc, found)
      go (some other) =
          unfold slot in
          elim (Bool-cases (r.attested_doc_id == key)) [
            | inl same ↦ (
              merge_into other r,
              lookup-insert r.attested_doc_id key (merge_into other r) existing ∙ rw same refl,
            )
            | inr different ↦ (
              doc,
              lookup-insert r.attested_doc_id key (merge_into other r) existing
                  ∙ rw different found,
            )
          ]

post_all-Holds :
    (key cid : String) (records : List (Option Record)) (existing : Map String Stored)
    (docs : List Slot)
    → Holds existing key cid
    → Holds (post_all records (existing, docs)).0 key cid
unfolding post_all
post_all-Holds key cid [] existing docs h = h
post_all-Holds key cid (none ∷ records) existing docs h =
    post_all-Holds key cid records existing docs h
post_all-Holds key cid (some r ∷ records) existing docs h =
    let acc = post_one r (existing, docs) in
    post_all-Holds key cid records acc.0 acc.1 (post_one-Holds key cid r existing docs h)

-- After a batch, the stored document of `key`, if there was one, holds every CID that it held before
-- and every CID that a record of the batch attests for it, also where several records name it.
pub post_all-Attests :
    (key cid : String) (records : List (Option Record)) (existing : Map String Stored)
    (docs : List Slot) (doc : Stored)
    → lookup key existing ≡ some doc
    → (contains (existing_values doc.cids) cid ≡ true) ⊎ Attests key cid records
    → Holds (post_all records (existing, docs)).0 key cid
unfolding post_all
post_all-Attests key cid records existing docs doc found (inl held) =
    post_all-Holds key cid records existing docs (doc, found, held)
post_all-Attests key cid [] existing docs doc found (inr a) = absurd a
post_all-Attests key cid (none ∷ records) existing docs doc found (inr a) =
    post_all-Attests key cid records existing docs doc found (inr a)
post_all-Attests key cid (some r ∷ records) existing docs doc found (inr (inl (same, attests))) =
    let acc = post_one r (existing, docs) in
    post_all-Holds key cid records acc.0 acc.1
      (post_one-Holds_new key cid r existing docs found same attests)
post_all-Attests key cid (some r ∷ records) existing docs doc found (inr (inr later)) =
    let acc = post_one r (existing, docs) in
    let (doc', found') = post_one-found key cid r existing docs found in
    post_all-Attests key cid records acc.0 acc.1 doc' found' (inr later)
