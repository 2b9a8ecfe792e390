-- ===== src/Attestation/Record/Merging.antt =====
-- Merged lists of attestationRecordService.go: no repeats, nothing lost, nothing made up.
use shinzo_host_client.Prelude.{
  ◌≤◌, ◌≡◌, sym, ◌∙◌, refl, ap, String, true, false, ◌||◌, Option, none, some, List, [], ◌∷◌, ◌++◌,
  ◌==◌, string_eq, ==_iff, count, count_p, count_p-append, contains, contains-append, arith,
  Bool-cases, inl, inr, ==_refl,
}
use shinzo_host_client.Attestation.Record.{
  Record, append_new, ListField, strings, existing_values, merge_string_list_field,
  merge_attestation_records,
}

append_new-contains :
    (result values : List String) (s : String)
    → contains (append_new result values) s ≡ (contains result s || contains values s)
unfolding append_new contains
append_new-contains result [] s = ground arith
append_new-contains result (v ∷ values) s = elim (Bool-cases (contains result v)) [
  | inl old ↦ rw old (append_new-contains result values s ∙ absorbed old)
  | inr new ↦ rw new (append_new-contains (result ++ (v ∷ [])) values s ∙ added)
]
  where
    absorbed :
        contains result v ≡ true
        → (contains result s || contains values s)
          ≡ (contains result s || (v == s || contains values s))
    absorbed old = elim (Bool-cases (v == s)) [
      | inl same ↦ rw (ap (contains result) (sym ((==_iff v s).0 same)) ∙ old) refl
      | inr other ↦ rw other refl
    ]

    added :
        (contains (result ++ (v ∷ [])) s || contains values s)
        ≡ (contains result s || (v == s || contains values s))
    added = ground (arith, contains-append result (v ∷ []) s)

absent_count : (s : String) (values : List String) → contains values s ≡ false → count s values ≡ 0
unfolding count count_p contains
absent_count s [] h = refl
absent_count s (v ∷ values) h = ground (arith, absent_count s values)

present_count : (s : String) (values : List String) → contains values s ≡ true → 1 ≤ count s values
unfolding count count_p contains
present_count s [] h = ground arith
present_count s (v ∷ values) h = ground (arith, present_count s values)

abbrev HasNoRepeats : List String → Type 0
HasNoRepeats values = (s : String) → count s values ≤ 1

snoc-HasNoRepeats :
    (result : List String) (v : String)
    → contains result v ≡ false
    → HasNoRepeats result
    → HasNoRepeats (result ++ (v ∷ []))
unfolding count count_p
snoc-HasNoRepeats result v new h s = elim (Bool-cases (v == s)) [
  | inl same ↦
      let none_yet : count s result ≡ 0 =
        absent_count s result (ap (contains result) (sym ((==_iff v s).0 same)) ∙ new) in
      ground (arith, count_p-append (λ x. x == s) result (v ∷ []))
  | inr other ↦ ground (arith, count_p-append (λ x. x == s) result (v ∷ []), h s)
]

append_new-HasNoRepeats :
    (result values : List String) → HasNoRepeats result → HasNoRepeats (append_new result values)
unfolding append_new
append_new-HasNoRepeats result [] h = h
append_new-HasNoRepeats result (v ∷ values) h = elim (Bool-cases (contains result v)) [
  | inl old ↦ rw old (append_new-HasNoRepeats result values h)
  | inr new ↦
      rw new
        (append_new-HasNoRepeats (result ++ (v ∷ [])) values (snoc-HasNoRepeats result v new h))
]

nothing-HasNoRepeats : HasNoRepeats []
unfolding count count_p
nothing-HasNoRepeats s = omega arith

-- A merged list field holds exactly the values that the stored field or the new list holds, and
-- each of them once.
pub merge_string_list_field-contains :
    (field : ListField) (new_values : List String) (s : String)
    → (contains (merge_string_list_field field new_values) s
        ≡ (contains (existing_values field) s || contains new_values s))
      × (count s (merge_string_list_field field new_values) ≤ 1)
unfolding merge_string_list_field
merge_string_list_field-contains field new_values s = (
  ground (
    arith,
    append_new-contains (append_new [] (existing_values field)) new_values s,
    append_new-contains [] (existing_values field) s,
    nothing,
  ),
  append_new-HasNoRepeats (append_new [] (existing_values field)) new_values
      (append_new-HasNoRepeats [] (existing_values field) nothing-HasNoRepeats) s,
)
  where
    nothing : contains [] s ≡ false
    nothing = unfold contains in refl

append_new-old :
    (result values : List String)
    → ((s : String) → contains values s ≡ true → contains result s ≡ true)
    → append_new result values ≡ result
unfolding append_new contains
append_new-old result [] h = refl
append_new-old result (v ∷ values) h =
    rw (h v (ground (arith, ==_refl v))) (append_new-old result values (λ s k. h s (later s k)))
  where
    later : (s : String) → contains values s ≡ true → (v == s || contains values s) ≡ true
    later s k = ground arith

append_snoc :
    (xs : List String) (y : String) (ys : List String) → (xs ++ (y ∷ [])) ++ ys ≡ xs ++ (y ∷ ys)
append_snoc [] y ys = refl
append_snoc (x ∷ xs) y ys = ap (◌∷◌ x) (append_snoc xs y ys)

append_nil : (xs : List String) → xs ≡ xs ++ []
append_nil [] = refl
append_nil (x ∷ xs) = ap (◌∷◌ x) (append_nil xs)

append_new-distinct :
    (result values : List String)
    → HasNoRepeats (result ++ values)
    → append_new result values ≡ result ++ values
unfolding append_new count count_p
append_new-distinct result [] h = append_nil result
append_new-distinct result (v ∷ values) h = elim (Bool-cases (contains result v)) [
  | inl old ↦ absurd (
      ground (
        arith,
        h v,
        ==_refl v,
        present_count v result old,
        count_p-append (λ x. x == v) result (v ∷ values),
      ))
  | inr new ↦ rw new (
      append_new-distinct (result ++ (v ∷ [])) values (rw (append_snoc result v values) h)
      ∙ append_snoc result v values)
]

-- Merging the same values again changes nothing.
pub merge_string_list_field_again :
    (field : ListField) (new_values : List String)
    → merge_string_list_field (strings (merge_string_list_field field new_values)) new_values
      ≡ merge_string_list_field field new_values
unfolding merge_string_list_field existing_values
merge_string_list_field_again field new_values =
    let merged = merge_string_list_field field new_values in
    rw
      (append_new-distinct [] merged (λ s. (merge_string_list_field-contains field new_values s).1))
      (append_new-old merged new_values
        (λ s k. ground (arith, (merge_string_list_field-contains field new_values s).0)))

-- What the merged record, or none, is to say of a value `s`.
abbrev pub Merges : Record → Record → String → Option Record → Type 0
Merges r1 r2 s none = (r1.attested_doc_id == r2.attested_doc_id) ≡ false
Merges r1 r2 s (some r) =
    (r.attested_doc_id ≡ r2.attested_doc_id)
    × (r.attested_doc_id ≡ r1.attested_doc_id)
    × (contains r.source_doc_ids s ≡ (contains r1.source_doc_ids s || contains r2.source_doc_ids s))
    × (contains r.cids s ≡ (contains r1.cids s || contains r2.cids s))

-- Two records of one document merge, into a record of it that holds exactly the sources and
-- the CIDs of either; records of different documents do not merge.
pub merge_attestation_records-contains :
    (r1 r2 : Record) (s : String) → Merges r1 r2 s (merge_attestation_records r1 r2)
unfolding merge_attestation_records
merge_attestation_records-contains r1 r2 s =
    elim (Bool-cases (r1.attested_doc_id == r2.attested_doc_id)) [
      | inl same ↦ rw same (
        (==_iff r1.attested_doc_id r2.attested_doc_id).0 same,
        refl,
        union r1.source_doc_ids r2.source_doc_ids,
        union r1.cids r2.cids,
      )
      | inr other ↦ rw other other
    ]
  where
    nothing : contains [] s ≡ false
    nothing = unfold contains in refl

    union :
        (xs ys : List String)
        → contains (append_new (append_new [] xs) ys) s ≡ (contains xs s || contains ys s)
    union xs ys =
        ground
          (arith, append_new-contains (append_new [] xs) ys s, append_new-contains [] xs s, nothing)
