-- ===== src/Acp/Query/Keys.antt =====
-- Response keys: the walk returns each at most once, and every one that a selection reaches.
use shinzo_host_client.Prelude.{
  ℕ, zero, suc, ◌≡◌, refl, sym, ◌∙◌, ap, String, Bool, true, false, ◌||◌, Option, none, some, List,
  [], ◌∷◌, ◌++◌, ◌==◌, string_eq, if◌then◌else◌, contains, Bool-cases, inl, inr,
}
use shinzo_host_client.Acp.Query.{
  Result, ok, err, ◌>>=◌, Selection, Selections, nil, cons, field, inline_fragment, fragment_spread,
  Operation, QueryDocument, TopLevelField, Found, Walk, join, enter_fragment, collect_one,
  collect_all, collect_top_level_fields, operations_fields, top_level_fields, max_fragment_depth,
}

-- The keys of the fields come one by one in front of those seen.
unfoldable pub push_keys : List TopLevelField → List String → List String
push_keys [] seen = seen
push_keys (f ∷ fields) seen = push_keys fields (f.response_key ∷ seen)

-- No field has a key that was seen before it.
abbrev pub Fresh : List String → List TopLevelField → Type 0
Fresh seen [] = Unit
Fresh seen (f ∷ fields) =
    (contains seen f.response_key ≡ false) × Fresh (f.response_key ∷ seen) fields

pub record Grows (seen : List String) (found : Found) : Type 0 where
  pub fresh : Fresh seen found.0
  pub keys : found.1 ≡ push_keys found.0 seen

Fresh-append :
    (seen : List String) (xs ys : List TopLevelField)
    → Fresh seen xs
    → Fresh (push_keys xs seen) ys
    → Fresh seen (xs ++ ys)
unfolding push_keys
Fresh-append seen [] ys hx hy = hy
Fresh-append seen (x ∷ xs) ys hx hy = (hx.0, Fresh-append (x.response_key ∷ seen) xs ys hx.1 hy)

push_keys-append :
    (seen : List String) (xs ys : List TopLevelField)
    → push_keys (xs ++ ys) seen ≡ push_keys ys (push_keys xs seen)
unfolding push_keys
push_keys-append seen [] ys = refl
push_keys-append seen (x ∷ xs) ys = push_keys-append (x.response_key ∷ seen) xs ys

-- A result with its postcondition: an error has none.
abbrev pub Ensures {ℓ} : {A : Type ℓ} → (A → Type 0) → Result A → Type 0
Ensures P (ok a) = P a
Ensures P (err e) = Unit

abbrev pub WalkGrows : Walk → Type 0
WalkGrows walk =
    (visited : List String) (sels : Selections) (seen : List String)
    → Ensures (Grows seen) (walk visited sels seen)

join-Grows :
    (seen seen' : List String) (fields : List TopLevelField) (r : Result Found)
    → Grows seen (fields, seen')
    → Ensures (Grows seen') r
    → Ensures (Grows seen) (r >>= λ found. ok (join fields found))
unfolding join
join-Grows seen seen' fields (err e) g h = tt
join-Grows seen seen' fields (ok (more, last)) g h = record {
  fresh = Fresh-append seen fields more g.fresh (rw g.keys at h.fresh);
  keys = h.keys ∙ ap (push_keys more) g.keys ∙ sym (push_keys-append seen fields more);
}

then-Grows :
    (seen : List String) (r : Result Found) (next : List String → Result Found)
    → Ensures (Grows seen) r
    → ((seen' : List String) → Ensures (Grows seen') (next seen'))
    → Ensures
        (Grows seen)
        (r >>= λ (found : Found). next found.1 >>= λ more. ok (join found.0 more))
then-Grows seen (err e) next g h = tt
then-Grows seen (ok (fields, seen')) next g h =
    join-Grows seen seen' fields (next seen') g (h seen')

module _ (fragment : String → Option Selections) where
  enter_fragment-Grows :
      (nested : Walk) (visited : List String) (name : String) (o : Option Selections)
      (seen : List String)
      → WalkGrows nested
      → Ensures (Grows seen) (enter_fragment nested visited name o seen)
  unfolding enter_fragment
  enter_fragment-Grows nested visited name none seen h = tt
  enter_fragment-Grows nested visited name (some sels) seen h = h (name ∷ visited) sels seen

  collect_one-Grows :
      (nested : Walk) (visited : List String) (sel : Selection) (seen : List String)
      → WalkGrows nested
      → Ensures (Grows seen) (collect_one fragment nested visited sel seen)
  unfolding collect_one push_keys
  collect_one-Grows nested visited (field alias name sub) seen h =
      elim (Bool-cases (contains seen alias)) [
        | inl dup ↦ rw dup (record { fresh = tt; keys = refl })
        | inr new ↦ rw new (record { fresh = (new, tt); keys = refl })
      ]
  collect_one-Grows nested visited (inline_fragment sels) seen h = h visited sels seen
  collect_one-Grows nested visited (fragment_spread name) seen h =
      elim (Bool-cases (contains visited name)) [
        | inl cycle ↦ rw cycle tt
        | inr new ↦ rw new (enter_fragment-Grows nested visited name (fragment name) seen h)
      ]

  pub collect_all-Grows :
      (nested : Walk) → WalkGrows nested → WalkGrows (collect_all fragment nested)
  unfolding collect_all push_keys
  collect_all-Grows nested h visited nil seen = record { fresh = tt; keys = refl }
  collect_all-Grows nested h visited (cons sel sels) seen =
      then-Grows seen (collect_one fragment nested visited sel seen)
        (λ seen'. collect_all fragment nested visited sels seen')
        (collect_one-Grows nested visited sel seen h)
        (λ seen'. collect_all-Grows nested h visited sels seen')

  pub collect_top_level_fields-Grows :
      (left : ℕ) → WalkGrows (collect_top_level_fields fragment left)
  unfolding collect_top_level_fields
  collect_top_level_fields-Grows zero visited sels seen = tt
  collect_top_level_fields-Grows (suc left) visited sels seen =
      collect_all-Grows (collect_top_level_fields fragment left)
        (collect_top_level_fields-Grows left) visited sels seen

  pub operations_fields-Grows :
      (operation_name : String) (ops : List Operation) (seen : List String)
      → Ensures (Grows seen) (operations_fields fragment operation_name ops seen)
  unfolding operations_fields push_keys
  operations_fields-Grows operation_name [] seen = record { fresh = tt; keys = refl }
  operations_fields-Grows operation_name (op ∷ ops) seen =
      then-Grows seen _ (λ seen'. operations_fields fragment operation_name ops seen')
        (selected (operation_name == "" || op.name == operation_name))
        (λ seen'. operations_fields-Grows operation_name ops seen')
    where
      selected :
          (b : Bool)
          → Ensures (Grows seen) (
              if b
              then collect_top_level_fields fragment
                  (suc max_fragment_depth)
                  []
                  op.selection_set
                  seen
              else ok ([], seen))
      selected true =
          collect_top_level_fields-Grows (suc max_fragment_depth) [] op.selection_set seen
      selected false = record { fresh = tt; keys = refl }

-- Whatever the query, the operation name and the fragments, no response key occurs twice among the
-- top-level fields that are returned.
top_level_fields-Fresh :
    (query : Option (Option QueryDocument)) (operation_name : String)
    → Ensures (Fresh []) (top_level_fields query operation_name)
unfolding top_level_fields
top_level_fields-Fresh none operation_name = tt
top_level_fields-Fresh (some none) operation_name = tt
top_level_fields-Fresh (some (some doc)) operation_name =
    go (operations_fields doc.fragment operation_name doc.operations [])
      (operations_fields-Grows doc.fragment operation_name doc.operations [])
  where
    go :
        (r : Result Found)
        → Ensures (Grows []) r
        → Ensures (Fresh []) (r >>= λ (found : Found). ok found.0)
    go (err e) h = tt
    go (ok (fields, seen)) h = h.fresh
