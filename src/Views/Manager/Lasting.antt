-- ===== src/Views/Manager/Lasting.antt =====
-- How long a registered view stays active: viewManager.go.
use shinzo_host_client.Prelude.{
  ◌≡◌, inl, inr, String, true, List, [], ◌∷◌, ◌==◌, string_eq, Map, lookup, insert, lookup-insert,
  arith, Bool-cases, ==_iff,
}
use shinzo_host_client.Prelude.Results.{ok}
use shinzo_host_client.Views.{View, Services}
use shinzo_host_client.Views.Manager.{
  ActiveView, Manager, is_present, is_active, active_view, register_view, register_all,
}
use shinzo_host_client.Views.Manager.Registered.{register_view-cases}

-- A view is active among some active views.
IsAmong : String → Map String ActiveView → Type 0
IsAmong name views = is_present (lookup name views) ≡ true

insert-IsAmong :
    (name : String) (a : ActiveView) (views : Map String ActiveView)
    → IsAmong name (insert name a views)
unfolding IsAmong is_present
insert-IsAmong name a views = ground (arith, lookup-insert name name a views, ==_iff name name)

insert-keeps :
    (name other : String) (a : ActiveView) (views : Map String ActiveView)
    → IsAmong other views
    → IsAmong other (insert name a views)
unfolding IsAmong is_present
insert-keeps name other a views h = elim (Bool-cases (name == other)) [
  | inl e ↦ ground (arith, lookup-insert name other a views)
  | inr e ↦ ground (arith, lookup-insert name other a views)
]

module _ {Database : Type 0} (services : Services Database) where
  pub register_view-active :
      (v w : View) (m : Manager Database)
      → (register_view services v m).0 ≡ ok w
      → is_active v.name (register_view services v m).1 ≡ true
  unfolding is_active IsAmong
  register_view-active v w m done = elim (register_view-cases services v m) [
    | inl refused ↦ absurd (ground (arith, done, refused.answer))
    | inr (inactive, registered) ↦
        rw registered.active_views
          (insert-IsAmong v.name (active_view registered.view) m.active_views)
  ]

  register_view-keeps :
      (v : View) (name : String) (m : Manager Database)
      → is_active name m ≡ true
      → is_active name (register_view services v m).1 ≡ true
  unfolding is_active IsAmong
  register_view-keeps v name m h = elim (register_view-cases services v m) [
    | inl refused ↦ rw refused.active_views h
    | inr (inactive, registered) ↦
        rw registered.active_views
          (insert-keeps v.name name (active_view registered.view) m.active_views h)
  ]

  pub register_all-keeps :
      (views : List View) (name : String) (m : Manager Database)
      → is_active name m ≡ true
      → is_active name (register_all services views m) ≡ true
  unfolding register_all
  register_all-keeps [] name m h = h
  register_all-keeps (v ∷ views) name m h =
      register_all-keeps views name (register_view services v m).1 (register_view-keeps v name m h)
