-- ===== src/Views/Saved.antt =====
-- pkg/view/wasmRegistry.go: the views that are kept in views.json for the next start. JSON and the file
-- system answer with a `ViewsFile`.
use shinzo_host_client.Prelude.{
  ◌≡◌, refl, String, Bool, true, false, Option, none, some, List, [], ◌∷◌, ◌==◌, string_eq,
  if◌then◌else◌, arith, ==_iff,
}
use shinzo_host_client.Prelude.Results.{Result, ok, err}
use shinzo_host_client.Views.{View}

pub data ViewsFile : Type 0 where
  missing unreadable unparsable : ViewsFile
  stored : List View → ViewsFile

pub data RegistryError : Type 0 where
  read_failed parse_failed write_failed : RegistryError

unfoldable pub add_views_from_lens_registry : ViewsFile → Result RegistryError (List View)
add_views_from_lens_registry missing = ok []
add_views_from_lens_registry unreadable = err read_failed
add_views_from_lens_registry unparsable = err parse_failed
add_views_from_lens_registry (stored views) = ok views

-- The first view of the name is replaced, or the view appended.
unfoldable pub with_view : View → List View → List View
with_view v [] = v ∷ []
with_view v (existing ∷ views) =
    let later = with_view v views in if existing.name == v.name then v ∷ views else existing ∷ later

-- Writing the file answers whether it succeeded, and with the file.
module _ (write : List View → ViewsFile → Bool × ViewsFile) where
  written : Bool × ViewsFile → Result RegistryError Unit × ViewsFile
  written (true, file) = (ok tt, file)
  written (false, file) = (err write_failed, file)

  replaced :
      View → ViewsFile → Result RegistryError (List View) → Result RegistryError Unit × ViewsFile
  unfolding written with_view
  replaced v file (err e) = (err e, file)
  replaced v file (ok views) = written (write (with_view v views) file)

  unfoldable pub save_view_to_registry : View → ViewsFile → Result RegistryError Unit × ViewsFile
  unfolding replaced add_views_from_lens_registry
  save_view_to_registry v file = replaced v file (add_views_from_lens_registry file)

-- The first view of a name.
unfoldable pub view_named : String → List View → Option View
view_named name [] = none
view_named name (v ∷ views) =
    let later = view_named name views in if v.name == name then some v else later

pub view_named-with_view :
    (name : String) (v : View) (views : List View)
    → view_named name (with_view v views)
      ≡ (if v.name == name then some v else view_named name views)
unfolding view_named with_view
view_named-with_view name v [] = refl
view_named-with_view name v (existing ∷ views) = ground (
  arith,
  view_named-with_view name v views,
  ==_iff existing.name v.name,
  ==_iff existing.name name,
  ==_iff v.name name,
)

-- Every write succeeds, and leaves the views in the file.
abbrev pub IsWriting : (List View → ViewsFile → Bool × ViewsFile) → Type 0
IsWriting write = (views : List View) (file : ViewsFile) → write views file ≡ (true, stored views)

module _ (write : List View → ViewsFile → Bool × ViewsFile) where
  written-stored :
      (out : Bool × ViewsFile) (views : List View)
      → (out.0 ≡ true → out.1 ≡ stored views)
      → (written write out).0 ≡ ok tt
      → add_views_from_lens_registry (written write out).1 ≡ ok views
  unfolding written add_views_from_lens_registry
  written-stored (true, file) views h e = rw (h refl) refl
  written-stored (false, file) views h e = absurd (ground (arith, e))

  -- If a write that succeeds leaves the views in the file, then after a view is saved without an error
  -- the views are loaded, with this view under its name, and under any other name what was loaded
  -- before.
  pub save_view_to_registry-view_named :
      (v : View) (file : ViewsFile) (views : List View) (name : String)
      → ((vs : List View) (f : ViewsFile) → (write vs f).0 ≡ true → (write vs f).1 ≡ stored vs)
      → add_views_from_lens_registry file ≡ ok views
      → (save_view_to_registry write v file).0 ≡ ok tt
      → (saved : List View) × (add_views_from_lens_registry (save_view_to_registry write v file).1
          ≡ ok saved)
        × (view_named name saved ≡ (if v.name == name then some v else view_named name views))
  unfolding save_view_to_registry replaced written add_views_from_lens_registry
  save_view_to_registry-view_named v file views name writes loads saves = (
    with_view v views,
    rw loads (
        written-stored (write (with_view v views) file) (with_view v views)
          (writes (with_view v views) file) (rw loads at saves)),
    view_named-with_view name v views,
  )

  pub save_view_to_registry-with_view :
      (v : View) (file : ViewsFile) (views : List View)
      → IsWriting write
      → add_views_from_lens_registry file ≡ ok views
      → add_views_from_lens_registry (save_view_to_registry write v file).1 ≡ ok (with_view v views)
  unfolding save_view_to_registry replaced written add_views_from_lens_registry
  save_view_to_registry-with_view v file views writes loads =
      rw loads (rw (writes (with_view v views) file) refl)
