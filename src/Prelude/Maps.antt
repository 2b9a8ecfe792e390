-- ===== src/Prelude/Maps.antt =====
-- Go maps as association lists over keys with a test. A write keeps the place of a key that is
-- there, so that no key occurs twice; the order of entries means nothing to the program.
use mathlib.Core.Path.{◌≡◌, refl}
use mathlib.Core.List.{List, [], ◌∷◌}
use mathlib.Core.Option.{Option, none, some}
use native.Mathlib.Omega.{arith}
use shinzo_host_client.Prelude.Tests.{Eq, ◌==◌, if◌then◌else◌}

abbrev pub Map {ℓ} : Type ℓ → Type ℓ → Type ℓ
Map K V = List (K × V)

module _ {ℓ} {K V : Type ℓ} ⦃e : Eq K⦄ where
  unfoldable pub lookup : K → Map K V → Option V
  lookup key [] = none
  lookup key ((at, value) ∷ rest) = if at == key then some value else lookup key rest

  unfoldable pub delete : K → Map K V → Map K V
  delete key [] = []
  delete key ((at, value) ∷ rest) =
      let others = delete key rest in if at == key then others else (at, value) ∷ others

  unfoldable pub insert : K → V → Map K V → Map K V
  insert key value [] = (key, value) ∷ []
  insert key value ((at, old) ∷ rest) =
      if at == key then (at, value) ∷ rest else (at, old) ∷ insert key value rest

  pub lookup-insert :
      (key other : K) (value : V) (entries : Map K V)
      → lookup other (insert key value entries)
        ≡ (if key == other then some value else lookup other entries)
  unfolding insert lookup
  lookup-insert key other value [] = refl
  lookup-insert key other value ((at, old) ∷ rest) = ground (
    arith,
    lookup-insert key other value rest,
    e.same_iff at key,
    e.same_iff at other,
    e.same_iff key other,
  )

  pub lookup-delete :
      (k j : K) (m : Map K V) → lookup j (delete k m) ≡ (if k == j then none else lookup j m)
  unfolding lookup delete
  lookup-delete k j [] = ground arith
  lookup-delete k j ((i, w) ∷ m) =
      ground (arith, e.same_iff k j, e.same_iff i k, e.same_iff i j, lookup-delete k j m)
