-- ===== src/Views/Manager/Addressed.antt =====
-- The contract addresses of the active views: viewManager.go.
use shinzo_host_client.Prelude.{
  ◌≡◌, ◌≢◌, refl, inl, inr, String, true, Option, none, some, ◌==◌, string_eq, Map, lookup, insert,
  lookup-insert, arith, Bool-cases, ==_iff,
}
use shinzo_host_client.Views.{View, Services}
use shinzo_host_client.Views.Manager.{
  ActiveView, Manager, is_present, address_of, is_active, contract_address, active_view,
  register_view,
}
use shinzo_host_client.Views.Manager.Registered.{register_view-cases}

-- An address that is none, or one that is not empty.
abbrev IsFilled : Option ActiveView → Type 0
IsFilled none = Unit
IsFilled (some a) = a.contract_address ≢ ""

AllFilled : Map String ActiveView → Type 0
AllFilled views = (name : String) → IsFilled (lookup name views)

-- Every active view has a contract address.
abbrev pub IsAddressed : {Database : Type 0} → Manager Database → Type 0
IsAddressed m = (name : String) → is_active name m ≡ true → contract_address name m ≢ none

address_of-some : (o : Option ActiveView) → is_present o ≡ true → IsFilled o → address_of o ≢ none
unfolding is_present address_of
address_of-some none present filled e = ground (arith, present)
address_of-some (some a) present filled e = ground (arith, e, filled, ==_iff a.contract_address "")

address_of-IsFilled :
    (o : Option ActiveView) → (is_present o ≡ true → address_of o ≢ none) → IsFilled o
unfolding is_present address_of
address_of-IsFilled none h = tt
address_of-IsFilled (some a) h =
    λ empty. h refl (ground (arith, empty, ==_iff a.contract_address ""))

insert-AllFilled :
    (name : String) (a : ActiveView) (views : Map String ActiveView)
    → a.contract_address ≢ ""
    → AllFilled views
    → AllFilled (insert name a views)
unfolding AllFilled
insert-AllFilled name a views filled all other =
    rw (lookup-insert name other a views)
      (elim (Bool-cases (name == other)) [ inl e ↦ rw e filled | inr e ↦ rw e (all other) ])

module _ {Database : Type 0} (services : Services Database) where
  -- Registering a view with an address keeps every active view addressed.
  pub register_view-IsAddressed :
      (v : View) (m : Manager Database)
      → v.contract_address ≢ ""
      → IsAddressed m
      → IsAddressed (register_view services v m).1
  unfolding is_active contract_address AllFilled
  register_view-IsAddressed v m filled addressed = elim (register_view-cases services v m) [
    | inl refused ↦ rw refused.active_views addressed
    | inr (inactive, registered) ↦
        let all : AllFilled m.active_views =
          λ name. address_of-IsFilled (lookup name m.active_views) (addressed name) in
        let more =
          insert-AllFilled v.name (active_view registered.view) m.active_views
            (unfold active_view in rw registered.same.contract_address filled) all in
        λ name present.
          address_of-some (lookup name (register_view services v m).1.active_views) present
            (rw registered.active_views (more name))
  ]
