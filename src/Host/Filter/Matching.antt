-- ===== src/Host/Filter/Matching.antt =====
-- What a filter group of replication_filter.go matches, described without its loops.
use shinzo_host_client.Prelude.{
  ◌≡◌, ◌≢◌, ◌↔◌, ◌⊎◌, inl, inr, refl, String, Bool, true, false, not, ◌&&◌, ◌||◌, List, [], ◌∷◌,
  ◌==◌, string_eq, ==_iff, Bool-cases, arith, Any, any-Any,
}
use shinzo_host_client.Host.Filter.{
  TopicFilter, FilterGroup, col_type_log, col_type_access_list_entry, col_type_transaction,
  contract_applies_to_type, later_topic, rest, topic_filter_matches, contract_matches, topics_match,
  group_matches,
}

module _ (fold : String → String) where
  -- Patterns against a document's topics, place by place: "" fits anything, even a missing topic.
  abbrev pub Fits : List String → List String → Type 0
  Fits [] topics = Unit
  Fits (pattern ∷ patterns) [] = (pattern ≡ "") × Fits patterns []
  Fits (pattern ∷ patterns) (topic ∷ topics) =
      ((pattern ≡ "") ⊎ (fold pattern ≡ fold topic)) × Fits patterns topics

  -- A topic filter with its required first topic.
  abbrev pub FitsFilter : TopicFilter → List String → Type 0
  FitsFilter tf topics =
      (tf.topic0 ≢ "")
      × (topics ≢ [])
      × Fits (tf.topic0 ∷ tf.topic1 ∷ tf.topic2 ∷ tf.topic3 ∷ []) topics

  -- A type that a contract filter names: the document's, or transactions where these cascade.
  abbrev pub Covers : Bool → String → String → Type 0
  Covers cascade col_type t =
      (fold t ≡ fold col_type)
      ⊎ ((cascade ≡ true)
          × ((fold t ≡ fold col_type_transaction)
              × ((col_type ≡ col_type_log) ⊎ (col_type ≡ col_type_access_list_entry))))

  both : (a b : Bool) (A B : Type 0) → (a ≡ true) ↔ A → (b ≡ true) ↔ B → ((a && b) ≡ true) ↔ (A × B)
  both true b A B f g = (λ h. (f.0 refl, g.0 h), λ h. g.1 h.1)
  both false b A B f g = (λ h. ground arith, λ h. f.1 h.0)

  either :
      (a b : Bool) (A B : Type 0) → (a ≡ true) ↔ A → (b ≡ true) ↔ B → ((a || b) ≡ true) ↔ (A ⊎ B)
  either true b A B f g = (λ h. inl (f.0 refl), λ h. refl)
  either false b A B f g =
      (λ h. inr (g.0 h), λ h. elim h [ inl a ↦ absurd (ground (arith, f.1 a)) | inr b ↦ g.1 b ])

  present : (s : String) → (not (s == "") ≡ true) ↔ (s ≢ "")
  present s = elim (Bool-cases (s == "")) [
    | inl same ↦ (λ h. ground arith, λ h. absurd (h ((==_iff s "").0 same)))
    | inr other ↦ (λ h e. ground (arith, ==_iff s ""), λ h. ground arith)
  ]

  later_topic-Fits :
      (pattern : String) (patterns topics : List String) (b : Bool)
      → (b ≡ true) ↔ Fits patterns (rest topics)
      → ((later_topic fold pattern topics && b) ≡ true) ↔ Fits (pattern ∷ patterns) topics
  unfolding later_topic rest
  later_topic-Fits pattern patterns [] b h = both (pattern == "") b _ _ (==_iff pattern "") h
  later_topic-Fits pattern patterns (topic ∷ topics) b h =
      both (pattern == "" || fold pattern == fold topic) b _ _
        (either (pattern == "") (fold pattern == fold topic) _ _ (==_iff pattern "")
          (==_iff (fold pattern) (fold topic)))
        h

  last_topic-Fits :
      (pattern : String) (topics : List String)
      → (later_topic fold pattern topics ≡ true) ↔ Fits (pattern ∷ []) topics
  last_topic-Fits pattern topics =
      let step = later_topic-Fits pattern [] topics true (λ h. tt, λ h. refl) in
      (λ h. step.0 (ground arith), λ h. ground (arith, step.1 h))

  -- A topic filter matches exactly the documents with topics, if its first topic is set, whose
  -- topics fit its patterns place by place.
  pub topic_filter_matches-Fits :
      (tf : TopicFilter) (topics : List String)
      → (topic_filter_matches fold tf topics ≡ true) ↔ FitsFilter tf topics
  unfolding topic_filter_matches
  topic_filter_matches-Fits tf [] = (λ h. ground arith, λ (h0, h1, h2). absurd (h1 refl))
  topic_filter_matches-Fits tf (topic ∷ topics) =
      let step = both (not (tf.topic0 == "")) _ _ _ (present tf.topic0) (
        both (fold tf.topic0 == fold topic) _ _ _ (==_iff (fold tf.topic0) (fold topic)) (
          later_topic-Fits tf.topic1 (tf.topic2 ∷ tf.topic3 ∷ []) topics _ (
            later_topic-Fits tf.topic2 (tf.topic3 ∷ []) (rest topics) _
              (last_topic-Fits tf.topic3 (rest (rest topics)))))) in
      (
        λ h. let (set, (first, more)) = step.0 h in (set, λ e. ground arith, (inr first, more)),
        λ (set, some_topic, (first, more)).
            step.1 (set, (elim first [ inl wild ↦ absurd (set wild) | inr same ↦ same ], more)),
      )

  -- A group matches a document exactly if the document has an address and one of the group's
  -- contracts has that address, up to case, and covers the document's type, or the document is a
  -- log and one of the group's topic filters fits its topics.
  pub group_matches-Any :
      (cascade : Bool) (g : FilterGroup) (address : String) (topics : List String)
      (col_type : String)
      → (group_matches fold cascade g address topics col_type ≡ true) ↔ (
          ((address ≢ "")
            × Any
                (λ cf. Any (Covers cascade col_type) cf.types × (fold cf.address ≡ fold address))
                g.contracts)
          ⊎ ((col_type ≡ col_type_log) × Any (λ tf. FitsFilter tf topics) g.topics))
  unfolding group_matches contract_matches topics_match contract_applies_to_type
  group_matches-Any cascade g address topics col_type =
      either _ _ _ _
        (both _ _ _ _ (present address) (
          any-Any _ _
            (λ cf.
              both _ _ _ _ (any-Any _ _ covers cf.types) (==_iff (fold cf.address) (fold address)))
            g.contracts))
        (both _ _ _ _ (==_iff col_type col_type_log)
          (any-Any _ _ (λ tf. topic_filter_matches-Fits tf topics) g.topics))
    where
      covers :
          (t : String)
          → ((fold t == fold col_type
                || (cascade
                    && (fold t == fold col_type_transaction
                        && (col_type == col_type_log || col_type == col_type_access_list_entry))))
              ≡ true)
            ↔ Covers cascade col_type t
      covers t = either _ _ _ _ (==_iff (fold t) (fold col_type)) (
          both _ _ _ _ (λ h. h, λ h. h)
            (both _ _ _ _ (==_iff (fold t) (fold col_type_transaction)) (
              either _ _ _ _ (==_iff col_type col_type_log)
                (==_iff col_type col_type_access_list_entry))))
