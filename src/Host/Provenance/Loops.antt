-- ===== src/Host/Provenance/Loops.antt =====
-- No loops of views: DocumentProvenanceService.go.
use shinzo_host_client.Prelude.{
  ℕ, suc, ◌≤◌, ◌<◌, ◌≡◌, ◌≢◌, ◌⊎◌, ◌∙◌, inl, inr, refl, sym, ap, true, false, List, [], ◌∷◌, ◌++◌,
  nat_eq, ==_iff, length, Map, All, arith,
}
use mathlib.Core.Path.{subst}
use shinzo_host_client.Prelude.Bytes.{bytes_eq, has_prefix, has_infix}
use shinzo_host_client.Pruner.DocId.{Bytes}
use shinzo_host_client.Host.Provenance.{
  FieldValue, DocumentMetadata, skipped, PrimitiveDocument, decide, default_max_processing_depth,
  should_process_document, initialize_metadata, extend_chain, create_view_output_document,
}

has_prefix-append : (s t v : Bytes) → has_prefix s v ≡ true → has_prefix (s ++ t) v ≡ true
unfolding has_prefix
has_prefix-append s t [] h = refl
has_prefix-append [] t (b ∷ v) h = absurd (ground (arith, h))
has_prefix-append (a ∷ s) t (b ∷ v) h = ground (arith, h, has_prefix-append s t v)

has_prefix_self : (v : Bytes) → has_prefix v v ≡ true
unfolding has_prefix
has_prefix_self [] = refl
has_prefix_self (b ∷ v) = ground (arith, (==_iff b b).1 refl, has_prefix_self v)

has_infix_of_prefix : (s v : Bytes) → has_prefix s v ≡ true → has_infix s v ≡ true
unfolding has_infix
has_infix_of_prefix [] v h = h
has_infix_of_prefix (a ∷ s) v h = ground (arith, h)

has_infix-append : (s t v : Bytes) → has_infix s v ≡ true → has_infix (s ++ t) v ≡ true
unfolding has_infix
has_infix-append [] t v h = has_infix_of_prefix t v (has_prefix-append [] t v h)
has_infix-append (a ∷ s) t v h =
    ground (arith, h, has_prefix-append (a ∷ s) t v, has_infix-append s t v)

has_infix_behind : (s t v : Bytes) → has_infix t v ≡ true → has_infix (s ++ t) v ≡ true
unfolding has_infix
has_infix_behind [] t v h = h
has_infix_behind (a ∷ s) t v h = ground (arith, has_infix_behind s t v h)

extend_chain_self : (chain v : Bytes) → has_infix (extend_chain chain v) v ≡ true
unfolding extend_chain
extend_chain_self chain v =
    let self = has_infix_of_prefix v v (has_prefix_self v) in
    ground
      (arith, self, has_infix_behind chain (b',' ∷ v) v (has_infix_behind (b',' ∷ []) v v self))

extend_chain_old :
    (chain v w : Bytes)
    → chain ≢ []
    → has_infix chain w ≡ true
    → has_infix (extend_chain chain v) w ≡ true
unfolding extend_chain
extend_chain_old chain v w n h =
    ground (arith, n, ==_iff chain [], has_infix-append chain (b',' ∷ v) w h)

-- A document that these views have led to, the last one first, from a source document.
pub data Derived : List Bytes → PrimitiveDocument → Type 0 where
  source :
      {doc : PrimitiveDocument}
      → doc.metadata.processing_depth ≡ 0
      → doc.metadata.processing_chain ≡ []
      → Derived [] doc
  output :
      {views : List Bytes} {doc next : PrimitiveDocument}
      → (view_id : Bytes) (fields : Map Bytes FieldValue) → view_id ≢ []
      → Derived views doc
      → (should_process_document doc view_id).should_process ≡ true
      → next ≡ create_view_output_document doc view_id fields
      → Derived (view_id ∷ views) next

abbrev pub AllDistinct : List Bytes → Type 0
AllDistinct [] = Unit
AllDistinct (v ∷ views) = All (λ w. w ≢ v) views × AllDistinct views

record IsChained (views : List Bytes) (doc : PrimitiveDocument) : Type 0 where
  depth : doc.metadata.processing_depth ≡ length views
  chained : All (λ w. has_infix doc.metadata.processing_chain w ≡ true) views
  begun : (views ≡ []) ⊎ (doc.metadata.processing_chain ≢ [])
  distinct : AllDistinct views
  bounded : length views ≤ 5

decide-true :
    (m : DocumentMetadata) (v : Bytes)
    → (decide m v).should_process ≡ true
    → (m.processing_depth < 5) × (has_infix m.processing_chain v ≡ false)
unfolding decide skipped default_max_processing_depth
decide-true m v h = ground (arith, h)

initialized :
    (doc : PrimitiveDocument) (n : ℕ)
    → doc.metadata.processing_depth ≡ suc n
    → initialize_metadata doc ≡ doc.metadata
unfolding initialize_metadata
initialized doc n e = ground (arith, e)

others :
    (views : List Bytes) (chain v : Bytes)
    → All (λ w. has_infix chain w ≡ true) views
    → has_infix chain v ≡ false
    → All (λ w. w ≢ v) views
others [] chain v h e = tt
others (w ∷ views) chain v (h, hs) e =
    ((λ same. absurd (ground (arith, h, e, ap (has_infix chain) same))), others views chain v hs e)

still_chained :
    (views : List Bytes) (chain v : Bytes)
    → chain ≢ []
    → All (λ w. has_infix chain w ≡ true) views
    → All (λ w. has_infix (extend_chain chain v) w ≡ true) views
still_chained [] chain v n h = tt
still_chained (w ∷ views) chain v n (h, hs) =
    (extend_chain_old chain v w n h, still_chained views chain v n hs)

extend_chain_begun : (chain v : Bytes) → v ≢ [] → extend_chain chain v ≢ []
unfolding extend_chain has_infix has_prefix
extend_chain_begun [] v n e = n e
extend_chain_begun (c ∷ chain) v n e = absurd (ground (arith, e))

output-IsChained :
    (views : List Bytes) (doc : PrimitiveDocument) (v : Bytes) (fields : Map Bytes FieldValue)
    → v ≢ []
    → IsChained views doc
    → (should_process_document doc v).should_process ≡ true
    → IsChained (v ∷ views) (create_view_output_document doc v fields)
unfolding should_process_document create_view_output_document
output-IsChained [] doc v fields n c h = record {
  depth = omega (arith, c.depth);
  chained = (extend_chain_self doc.metadata.processing_chain v, tt);
  begun = inr (extend_chain_begun doc.metadata.processing_chain v n);
  distinct = (tt, tt);
  bounded = omega arith;
}
output-IsChained (u ∷ views) doc v fields n c h =
    let same = initialized doc (length views) c.depth in
    let (room, unseen) =
      decide-true doc.metadata v (sym (ap (λ m. (decide m v).should_process) same) ∙ h) in
    let begun_already : doc.metadata.processing_chain ≢ [] = elim c.begun [
      | inl e ↦ λ x. absurd (ground (arith, e))
      | inr e ↦ e
    ] in
    record {
      depth = omega (arith, c.depth);
      chained = (
        extend_chain_self doc.metadata.processing_chain v,
        still_chained (u ∷ views) doc.metadata.processing_chain v begun_already c.chained,
      );
      begun = inr (extend_chain_begun doc.metadata.processing_chain v n);
      distinct = (others (u ∷ views) doc.metadata.processing_chain v c.chained unseen, c.distinct);
      bounded = omega (arith, room, c.depth);
    }

Derived-IsChained :
    {views : List Bytes} {doc : PrimitiveDocument} → Derived views doc → IsChained views doc
Derived-IsChained (source e f) = record {
  depth = e;
  chained = tt;
  begun = inl refl;
  distinct = tt;
  bounded = omega arith;
}
Derived-IsChained (output {views} {doc} v fields n d h e) =
    subst (λ x. IsChained (v ∷ views) x) (sym e)
      (output-IsChained views doc v fields n (Derived-IsChained d) h)

-- However views are run on the outputs of views, where each was decided to process its document and has
-- a name, a document comes from at most five views, which all differ.
pub Derived-AllDistinct :
    {views : List Bytes} {doc : PrimitiveDocument}
    → Derived views doc
    → AllDistinct views × (length views ≤ 5)
Derived-AllDistinct d = let c = Derived-IsChained d in (c.distinct, c.bounded)
