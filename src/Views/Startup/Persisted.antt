-- ===== src/Views/Startup/Persisted.antt =====
-- The active views are saved: viewManager.go.
use shinzo_host_client.Prelude.{
  ℕ, ◌≡◌, ◌⊎◌, inl, inr, sym, String, Bool, some, List, [], ◌∷◌, ◌++◌, ◌==◌, string_eq, Map, lookup,
  insert, lookup-insert, arith, Bool-cases,
}
use shinzo_host_client.Prelude.Results.{Result, ok, err}
use shinzo_host_client.Views.{View, ViewError, Services}
use shinzo_host_client.Views.Manager.{
  ActiveView, Manager, active_view, deduplicate_views, register_view,
}
use shinzo_host_client.Views.Manager.Registered.{IsRefused, IsRegistered, register_view-cases}
use shinzo_host_client.Views.Saved.{
  ViewsFile, IsWriting, with_view, add_views_from_lens_registry, save_view_to_registry-with_view,
  view_named, view_named-with_view,
}
use shinzo_host_client.Views.Wasm.{Attempt, Paths}
use shinzo_host_client.Views.Startup.{
  Startup, local_views, saved_if, register_and_save, register_and_save_all, loaded,
  load_and_register_views,
}

-- Each active view is the first one saved under its name.
abbrev pub AllSaved : Map String ActiveView → List View → Type 0
AllSaved active saved =
    (name : String) (a : ActiveView)
    → lookup name active ≡ some a
    → (v : View) × (view_named name saved ≡ some v) × (active_view v ≡ a)

insert-AllSaved :
    (v : View) (active : Map String ActiveView) (saved : List View)
    → AllSaved active saved
    → AllSaved (insert v.name (active_view v) active) (with_view v saved)
insert-AllSaved v active saved all name a found = elim (Bool-cases (v.name == name)) [
  | inl same ↦ (
    v,
    ground (arith, view_named-with_view name v saved, same),
    ground (arith, lookup-insert v.name name (active_view v) active, found, same),
  )
  | inr differs ↦
      let (w, named, is) =
        all name a
          (ground (arith, lookup-insert v.name name (active_view v) active, found, differs)) in
      (w, ground (arith, view_named-with_view name v saved, named, differs), is)
]

-- Every active view is among the saved ones, which can be loaded.
abbrev pub IsPersisted : {Database : Type 0} → Manager Database × ViewsFile → Type 0
IsPersisted s =
    (saved : List View) × (add_views_from_lens_registry s.1 ≡ ok saved)
    × AllSaved s.0.active_views saved

module _ {Database : Type 0} (services : Services Database)
    (write : List View → ViewsFile → Bool × ViewsFile) where
  saved_if-IsPersisted :
      (v : View) (m : Manager Database) (r : Result ViewError View × Manager Database)
      (file : ViewsFile)
      → IsWriting write
      → IsRefused m r ⊎ IsRegistered v m r
      → IsPersisted (m, file)
      → IsPersisted (saved_if services write r file)
  unfolding saved_if
  saved_if-IsPersisted v m (err e, m') file writes (inl refused) (saved, loads, all) =
      (saved, loads, rw refused.active_views all)
  saved_if-IsPersisted v m (err e, m') file writes (inr registered) p =
      absurd (ground (arith, registered.answer))
  saved_if-IsPersisted v m (ok w, m') file writes (inl refused) p =
      absurd (ground (arith, refused.answer))
  saved_if-IsPersisted v m (ok w, m') file writes (inr registered) (saved, loads, all) =
      let same : w ≡ registered.view = cc registered.answer in
      (
        with_view w saved,
        save_view_to_registry-with_view write w file saved writes loads,
        rw registered.active_views (
            rw (sym registered.same.name)
              (rw same (insert-AllSaved registered.view m.active_views saved all))),
      )

  pub register_and_save-IsPersisted :
      (v : View) (s : Manager Database × ViewsFile)
      → IsWriting write
      → IsPersisted s
      → IsPersisted (register_and_save services write v s)
  unfolding register_and_save
  register_and_save-IsPersisted v (m, file) writes p =
      saved_if-IsPersisted v m (register_view services v m) file writes
        (elim (register_view-cases services v m) [
          | inl refused ↦ inl refused
          | inr (inactive, registered) ↦ inr registered
        ])
        p

  register_and_save_all-IsPersisted :
      (views : List View) (s : Manager Database × ViewsFile)
      → IsWriting write
      → IsPersisted s
      → IsPersisted (register_and_save_all services write views s)
  unfolding register_and_save_all
  register_and_save_all-IsPersisted [] s writes p = p
  register_and_save_all-IsPersisted (v ∷ views) s writes p =
      register_and_save_all-IsPersisted views (register_and_save services write v s) writes
        (register_and_save-IsPersisted v s writes p)

  pub load_and_register_views-IsPersisted :
      (paths : Paths) (attempts : ℕ → Attempt) (external : List View) (s : Startup Database)
      → IsWriting write
      → IsPersisted (s.manager, s.views_file)
      → IsPersisted (
        (load_and_register_views services write paths attempts external s).manager,
        (load_and_register_views services write paths attempts external s).views_file,
      )
  unfolding load_and_register_views loaded
  load_and_register_views-IsPersisted paths attempts external s writes p =
      register_and_save_all-IsPersisted
        (deduplicate_views (external ++ local_views (add_views_from_lens_registry s.views_file)))
        (s.manager, s.views_file) writes p
