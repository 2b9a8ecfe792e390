-- ===== src/Views/Manager/Registered.antt =====
-- What the registration of a view leaves: viewManager.go.
use shinzo_host_client.Prelude.{
  suc, ◌+◌, ◌≡◌, ◌⊎◌, ◌∙◌, inl, inr, refl, ap, String, false, Option, none, some, [], ◌∷◌, ◌==◌,
  string_eq, length, Map, lookup, insert, arith, Bool-cases,
}
use shinzo_host_client.Prelude.Bytes.{bytes_eq}
use shinzo_host_client.Prelude.Results.{Result, ok, err}
use shinzo_host_client.Pruner.DocId.{Bytes}
use shinzo_host_client.Host.Metrics.{
  HostMetrics, counted, increment_views_registered, set_views_active,
}
use shinzo_host_client.Views.{
  View, ViewError, Services, validate, configure_lens, setup_lens_in_defra_db,
}
use shinzo_host_client.Views.Manager.{
  ActiveView, Manager, get_view_count, is_present, is_active, active_view, update_metrics, activate,
  fix_query_input_data, fix_collection_name, prepare_wasm, finished, with_lens, with_wasm,
  validated, register_view,
}
use shinzo_host_client.Views.Manager.Kept.{
  IsSame, IsSame-trans, fix_query_input_data-IsSame, fix_collection_name-IsSame, Keeps, Keeps-trans,
  prepare_wasm-Keeps, configure_lens-Keeps,
}

length-insert :
    (name : String) (a : ActiveView) (views : Map String ActiveView)
    → lookup name views ≡ none
    → length (insert name a views) ≡ suc (length views)
unfolding lookup insert
length-insert name a [] e = refl
length-insert name a ((other, b) ∷ views) e = elim (Bool-cases (other == name)) [
  | inl same ↦ absurd (ground (arith, e, same))
  | inr differs ↦
      let rest = length-insert name a views (ground (arith, e, differs)) in
      rw differs (omega (arith, rest))
]

module _ {Database : Type 0} where
  -- A registration that failed with this error and left the views and the metrics as they were.
  pub record IsRefused (m : Manager Database) (r : Result ViewError View × Manager Database)
      : Type 0 where
    pub error : ViewError
    pub answer : r.0 ≡ err error
    pub active_views : r.1.active_views ≡ m.active_views
    pub metrics : r.1.metrics ≡ m.metrics

  -- A registration of a view, up to its query and lenses, under its name.
  pub record IsRegistered (v : View) (m : Manager Database)
      (r : Result ViewError View × Manager Database) : Type 0 where
    pub view : View
    pub same : IsSame v view
    pub answer : r.0 ≡ ok view
    pub active_views : r.1.active_views ≡ insert v.name (active_view view) m.active_views
    pub metrics :
        r.1.metrics
        ≡ counted
            (λ x. set_views_active (length m.active_views) (increment_views_registered x))
            m.metrics

  is_active-none :
      (name : String) (m : Manager Database)
      → is_active name m ≡ false
      → lookup name m.active_views ≡ none
  unfolding is_active
  is_active-none name m e = go (lookup name m.active_views) e
    where
      go : (o : Option ActiveView) → is_present o ≡ false → o ≡ none
      go none h = refl
      go (some a) h = absurd (unfold is_present in ground (arith, h))

module _ {Database : Type 0} (services : Services Database) where
  finished-cases :
      (v : View) (r : Result ViewError View × Database) (m : Manager Database)
      → Keeps v r.0
      → IsRefused m (finished services r m) ⊎ IsRegistered v m (finished services r m)
  unfolding finished activate update_metrics
  finished-cases v (err e, db) m k =
      inl (record { error = e; answer = refl; active_views = refl; metrics = refl })
  finished-cases v (ok w, db) m k = inr (record {
    view = w;
    same = k;
    answer = refl;
    active_views = ap (λ n. insert n (active_view w) m.active_views) k.name;
    metrics = refl;
  })

  with_lens-cases :
      (v w : View) (r : Result ViewError Bytes × Database) (m : Manager Database)
      → IsSame v w
      → IsRefused m (with_lens services w r m) ⊎ IsRegistered v m (with_lens services w r m)
  unfolding with_lens
  with_lens-cases v w (err e, db) m p =
      inl (record { error = e; answer = refl; active_views = refl; metrics = refl })
  with_lens-cases v w (ok cid, db) m p =
      let fixed = fix_collection_name w in
      finished-cases v (configure_lens services cid fixed db) m (
        Keeps-trans v fixed (configure_lens services cid fixed db).0
          (IsSame-trans v w fixed p (fix_collection_name-IsSame w))
          (configure_lens-Keeps services cid fixed db))

  with_wasm-cases :
      (v : View) (r : Result ViewError View) (m : Manager Database)
      → Keeps v r
      → IsRefused m (with_wasm services r m) ⊎ IsRegistered v m (with_wasm services r m)
  unfolding with_wasm
  with_wasm-cases v (err e) m k =
      inl (record { error = e; answer = refl; active_views = refl; metrics = refl })
  with_wasm-cases v (ok w) m k =
      with_lens-cases v w (setup_lens_in_defra_db services w m.database) m k

  validated-cases :
      (v : View) (r : Result ViewError Unit) (m : Manager Database)
      → IsRefused m (validated services v r m)
        ⊎ ((is_active v.name m ≡ false) × IsRegistered v m (validated services v r m))
  unfolding validated
  validated-cases v (err e) m =
      inl (record { error = e; answer = refl; active_views = refl; metrics = refl })
  validated-cases v (ok _) m = elim (Bool-cases (is_active v.name m)) [
    | inl h ↦ rw h (
        inl (record {
          error = ViewError.view_already_registered;
          answer = refl;
          active_views = refl;
          metrics = refl;
        }))
    | inr h ↦ rw h (
        fresh refl (
          with_wasm-cases v (prepare_wasm services (fix_query_input_data v)) m (
            Keeps-trans v (fix_query_input_data v) (prepare_wasm services (fix_query_input_data v))
              (fix_query_input_data-IsSame v)
              (prepare_wasm-Keeps services (fix_query_input_data v)))))
  ]
    where
      fresh : {A B C : Type 0} → A → B ⊎ C → B ⊎ (A × C)
      fresh a (inl b) = inl b
      fresh a (inr c) = inr (a, c)

  -- Registering a view fails and leaves the active views and the metrics as they are, or no view of its
  -- name was active, and it is active then, with its address, beside those that were.
  pub register_view-cases :
      (v : View) (m : Manager Database)
      → IsRefused m (register_view services v m)
        ⊎ ((is_active v.name m ≡ false) × IsRegistered v m (register_view services v m))
  unfolding register_view
  register_view-cases v m = validated-cases v (validate services v) m

  -- Where a view is registered and the host has metrics, the number of active views that they show is
  -- one less than the number of active views.
  pub register_view-lags :
      (v w : View) (m : Manager Database) (x : HostMetrics)
      → m.metrics ≡ some x
      → (register_view services v m).0 ≡ ok w
      → (y : HostMetrics) × ((register_view services v m).1.metrics ≡ some y)
        × (y.views_active + 1 ≡ get_view_count (register_view services v m).1)
  unfolding get_view_count set_views_active
  register_view-lags v w m x e done = go (register_view-cases v m)
    where
      go :
          IsRefused m (register_view services v m)
            ⊎ ((is_active v.name m ≡ false) × IsRegistered v m (register_view services v m))
          → (y : HostMetrics) × ((register_view services v m).1.metrics ≡ some y)
            × (y.views_active + 1 ≡ length (register_view services v m).1.active_views)
      go (inl refused) = absurd (ground (arith, done, refused.answer))
      go (inr (inactive, registered)) = (
        set_views_active (length m.active_views) (increment_views_registered x),
        registered.metrics
            ∙ ap
                (counted
                  (λ x. set_views_active (length m.active_views) (increment_views_registered x)))
                e,
        omega (
          arith,
          ap length registered.active_views,
          length-insert v.name (active_view registered.view) m.active_views
              (is_active-none v.name m inactive),
        ),
      )
