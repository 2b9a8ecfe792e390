-- ===== src/Prelude/Lists.antt =====
-- Lists measured by native numbers, and the loops over slices that several components share.
use Prim.Native.Nat.{ℕ, zero, suc, ◌+◌, ◌-◌, ◌≤◌, min}
use mathlib.Core.Path.{◌≡◌, refl, ap}
use mathlib.Core.Bool.{Bool, true, false, ◌||◌}
use mathlib.Core.Logic.{◌↔◌, ◌⊎◌, inl, inr}
use mathlib.Core.List.{List, [], ◌∷◌, ◌++◌}
use Prim.Native.Nat.add
use native.Mathlib.Omega.{arith}
use shinzo_host_client.Prelude.Tests.{Eq, ◌==◌, if◌then◌else◌, Bool-cases}

module _ {ℓ} {A : Type ℓ} where
  abbrev pub length : List A → ℕ
  length [] = 0
  length (x ∷ xs) = suc (length xs)

  abbrev pub take : ℕ → List A → List A
  take zero xs = []
  take (suc n) [] = []
  take (suc n) (x ∷ xs) = x ∷ take n xs

  abbrev pub drop : ℕ → List A → List A
  drop zero xs = xs
  drop (suc n) [] = []
  drop (suc n) (x ∷ xs) = drop n xs

  pub length-append : (xs ys : List A) → length (xs ++ ys) ≡ length xs + length ys
  length-append [] ys = omega arith
  length-append (x ∷ xs) ys = omega (arith, length-append xs ys)

  pub length-take : (n : ℕ) (xs : List A) → length (take n xs) ≡ min n (length xs)
  length-take zero xs = omega arith
  length-take (suc n) [] = omega arith
  length-take (suc n) (x ∷ xs) = omega (arith, length-take n xs)

  pub length-drop : (n : ℕ) (xs : List A) → length (drop n xs) ≡ length xs - n
  length-drop zero xs = omega arith
  length-drop (suc n) [] = omega arith
  length-drop (suc n) (x ∷ xs) = omega (arith, length-drop n xs)

  pub take-append-drop : (n : ℕ) (xs : List A) → take n xs ++ drop n xs ≡ xs
  take-append-drop zero xs = refl
  take-append-drop (suc n) [] = refl
  take-append-drop (suc n) (x ∷ xs) = ap (◌∷◌ x) (take-append-drop n xs)

-- A predicate of every element.
abbrev pub All {ℓ κ} : {A : Type ℓ} → (A → Type κ) → List A → Type κ
All P [] = Unit
All P (x ∷ xs) = P x × All P xs

-- How many elements pass a test.
module _ {ℓ} {A : Type ℓ} where
  unfoldable pub count_p : (A → Bool) → List A → ℕ
  count_p p [] = 0
  count_p p (x ∷ xs) = (if p x then 1 else 0) + count_p p xs

  pub count_p-append :
      (p : A → Bool) (xs ys : List A) → count_p p (xs ++ ys) ≡ count_p p xs + count_p p ys
  unfolding count_p
  count_p-append p [] ys = omega arith
  count_p-append p (x ∷ xs) ys = omega (arith, count_p-append p xs ys)

  pub count_p-take-drop :
      (p : A → Bool) (n : ℕ) (xs : List A)
      → count_p p (take n xs) + count_p p (drop n xs) ≡ count_p p xs
  unfolding count_p
  count_p-take-drop p zero xs = omega arith
  count_p-take-drop p (suc n) [] = omega arith
  count_p-take-drop p (suc n) (x ∷ xs) = omega (arith, count_p-take-drop p n xs)

  pub count_p-le-length : (p : A → Bool) (xs : List A) → count_p p xs ≤ length xs
  unfolding count_p
  count_p-le-length p [] = omega arith
  count_p-le-length p (x ∷ xs) = ground (arith, count_p-le-length p xs)

-- A loop that returns true at the first element that passes a test.
module _ {ℓ} {A : Type ℓ} where
  unfoldable pub any : (A → Bool) → List A → Bool
  any p [] = false
  any p (x ∷ xs) = p x || any p xs

-- A predicate of some element.
abbrev pub Any {ℓ} : {A : Type ℓ} → (A → Type 0) → List A → Type 0
Any P [] = ⊥
Any P (x ∷ xs) = P x ⊎ Any P xs

-- The loop finds what the predicate describes, if the test decides the predicate on the list.
pub any-Any_on {ℓ} :
    {A : Type ℓ} (p : A → Bool) (P : A → Type 0) (xs : List A)
    → All (λ x. (p x ≡ true) ↔ P x) xs
    → (any p xs ≡ true) ↔ Any P xs
unfolding any
any-Any_on p P [] decides = (λ h. ground arith, λ h. absurd h)
any-Any_on p P (x ∷ xs) (decides, rest) = (
  λ h. elim (Bool-cases (p x)) [
    | inl hit ↦ inl (decides.0 hit)
    | inr miss ↦ inr ((any-Any_on p P xs rest).0 (ground arith))
  ],
  λ h. elim h [
    | inl hit ↦ rw (decides.1 hit) refl
    | inr later ↦ found (p x) (any p xs) ((any-Any_on p P xs rest).1 later)
  ],
)
  where
    found : (b c : Bool) → c ≡ true → (b || c) ≡ true
    found b c h = ground arith

pub All-map {ℓ κ μ} :
    {A : Type ℓ} (P : A → Type κ) (Q : A → Type μ) (xs : List A)
    → ((x : A) → P x → Q x)
    → All P xs
    → All Q xs
All-map P Q [] f h = tt
All-map P Q (x ∷ xs) f (h, hs) = (f x h, All-map P Q xs f hs)

pub All-every {ℓ κ} : {A : Type ℓ} (P : A → Type κ) → ((x : A) → P x) → (xs : List A) → All P xs
All-every P f [] = tt
All-every P f (x ∷ xs) = (f x, All-every P f xs)

pub any-Any {ℓ} :
    {A : Type ℓ} (p : A → Bool) (P : A → Type 0)
    → ((x : A) → (p x ≡ true) ↔ P x)
    → (xs : List A) → (any p xs ≡ true) ↔ Any P xs
any-Any p P decides xs = any-Any_on p P xs (All-every (λ x. (p x ≡ true) ↔ P x) decides xs)

-- Membership as a test, for sets kept as lists and for `slices.Contains`.
module _ {ℓ} {A : Type ℓ} ⦃e : Eq A⦄ where
  unfoldable pub contains : List A → A → Bool
  contains [] a = false
  contains (x ∷ xs) a = x == a || contains xs a

  -- How often a value occurs.
  unfoldable pub count : A → List A → ℕ
  unfolding count_p
  count a = count_p (λ x. x == a)

  pub contains-append :
      (xs ys : List A) (a : A) → contains (xs ++ ys) a ≡ (contains xs a || contains ys a)
  unfolding contains
  contains-append [] ys a = refl
  contains-append (x ∷ xs) ys a = ground (arith, contains-append xs ys a)

module _ {ℓ} {A : Type ℓ} where
  pub take-append-drop_at :
      (m n : ℕ) (xs : List A) → take n (drop m xs) ++ drop (m + n) xs ≡ drop m xs
  take-append-drop_at zero n xs = rw add.zero (take-append-drop n xs)
  take-append-drop_at (suc m) n [] = rw (add.suc, drop_nil n)
    where
      drop_nil : (k : ℕ) → take {A = A} k [] ++ [] ≡ []
      drop_nil zero = refl
      drop_nil (suc k) = refl
  take-append-drop_at (suc m) n (x ∷ xs) = rw add.suc (take-append-drop_at m n xs)

module _ {ℓ κ} {A : Type ℓ} (P : A → Type κ) where
  pub All-append : (xs ys : List A) → All P xs → All P ys → All P (xs ++ ys)
  All-append [] ys hx hy = hy
  All-append (x ∷ xs) ys hx hy = (hx.0, All-append xs ys hx.1 hy)

  pub All-take : (n : ℕ) (xs : List A) → All P xs → All P (take n xs)
  All-take zero xs h = tt
  All-take (suc n) [] h = tt
  All-take (suc n) (x ∷ xs) h = (h.0, All-take n xs h.1)

  pub All-drop : (n : ℕ) (xs : List A) → All P xs → All P (drop n xs)
  All-drop zero xs h = h
  All-drop (suc n) [] h = tt
  All-drop (suc n) (x ∷ xs) h = All-drop n xs h.1
