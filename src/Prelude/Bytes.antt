-- ===== src/Prelude/Bytes.antt =====
-- Byte strings, compared byte by byte.
use Prim.Native.Nat.{ℕ}
use Prim.Native.Char.{code}
use Prim.Native.String.{String}
use mathlib.Core.Path.{◌≡◌, refl}
use mathlib.Core.Logic.{◌↔◌, ◌⊎◌, ◌≢◌, inl, inr}
use mathlib.Core.Bool.{Bool, true, false, ◌&&◌, ◌||◌}
use mathlib.Core.List.{List, [], ◌∷◌}
use native.Mathlib.Omega.{arith}
use shinzo_host_client.Prelude.Tests.{Eq, ◌==◌, nat_eq, nat_beq_iff, Bool-cases}

abbrev pub beq_bytes : List ℕ → List ℕ → Bool
beq_bytes [] [] = true
beq_bytes (a ∷ s) (b ∷ t) = a == b && beq_bytes s t
beq_bytes _ _ = false

pub beq_bytes_iff : (s t : List ℕ) → (beq_bytes s t ≡ true) ↔ (s ≡ t)
beq_bytes_iff [] [] = (λ h. refl, λ h. refl)
beq_bytes_iff (a ∷ s) (b ∷ t) = ground (arith, nat_beq_iff a b, beq_bytes_iff s t)
beq_bytes_iff [] (b ∷ t) = ground arith
beq_bytes_iff (a ∷ s) [] = ground arith

instance abbrev pub bytes_eq : Eq (List ℕ)
bytes_eq = record { same = beq_bytes; same_iff = beq_bytes_iff }

-- Two byte strings are equal or not.
pub bytes_decided : (s t : List ℕ) → (s ≡ t) ⊎ (s ≢ t)
bytes_decided s t = elim (Bool-cases (beq_bytes s t)) [
  | inl h ↦ inl ((beq_bytes_iff s t).0 h)
  | inr h ↦ inr (λ e. ground (arith, (beq_bytes_iff s t).1 e))
]

-- The bytes of an ASCII text.
abbrev pub codes : String → List ℕ
codes String.[] = []
codes (String.◌∷◌ c s) = code c ∷ codes s

unfoldable pub has_prefix : List ℕ → List ℕ → Bool
has_prefix s [] = true
has_prefix [] (b ∷ prefix) = false
has_prefix (a ∷ s) (b ∷ prefix) = a == b && has_prefix s prefix

unfoldable pub has_infix : List ℕ → List ℕ → Bool
unfolding has_prefix
has_infix [] part = has_prefix [] part
has_infix (a ∷ s) part = has_prefix (a ∷ s) part || has_infix s part
