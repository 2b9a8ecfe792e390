-- ===== src/Prelude/Int.antt =====
-- Signed integers over the native numbers (Go's `int` and `int64`), and 64-bit wrap-around.
use Prim.Native.Nat.{ℕ, suc, ◌+◌, ◌-◌, ◌*◌, ◌%◌, ◌^◌, ◌≤◌, ◌<◌}
use mathlib.Core.Path.{◌≡◌}
use mathlib.Core.Bool.{Bool, true, false}
use mathlib.Core.Logic.{◌↔◌}
use native.Mathlib.Omega.{arith}
use shinzo_host_client.Prelude.Tests.{Eq, ◌==◌, nat_eq, nat_beq_iff, ltb, leb, if◌then◌else◌}

-- `negsuc n` is -(n + 1).
pub data ℤ : Type 0 where
  pos : ℕ → ℤ
  negsuc : ℕ → ℤ

abbrev pub pos_part : ℤ → ℕ
pos_part (pos n) = n
pos_part (negsuc n) = 0

abbrev pub neg_part : ℤ → ℕ
neg_part (pos n) = 0
neg_part (negsuc n) = suc n

abbrev pub sub_ℕ : ℕ → ℕ → ℤ
sub_ℕ a b = if leb b a then pos (a - b) else negsuc (b - a - 1)

infixl 65 ◌+ℤ◌ ◌-ℤ◌
infixl 70 ◌*ℤ◌
infix 50 ◌≤ℤ◌ ◌<ℤ◌
unfoldable pub ◌+ℤ◌ : ℤ → ℤ → ℤ
a +ℤ b = sub_ℕ (pos_part a + pos_part b) (neg_part a + neg_part b)

unfoldable pub ◌-ℤ◌ : ℤ → ℤ → ℤ
a -ℤ b = sub_ℕ (pos_part a + neg_part b) (neg_part a + pos_part b)

unfoldable pub ◌*ℤ◌ : ℤ → ℤ → ℤ
a *ℤ b =
    sub_ℕ (pos_part a * pos_part b + neg_part a * neg_part b)
      (pos_part a * neg_part b + neg_part a * pos_part b)

abbrev pub ◌≤ℤ◌ : ℤ → ℤ → Type 0
a ≤ℤ b = pos_part a + neg_part b ≤ pos_part b + neg_part a

abbrev pub ◌<ℤ◌ : ℤ → ℤ → Type 0
a <ℤ b = pos_part a + neg_part b < pos_part b + neg_part a

abbrev pub ltb_ℤ : ℤ → ℤ → Bool
ltb_ℤ a b = ltb (pos_part a + neg_part b) (pos_part b + neg_part a)

abbrev pub leb_ℤ : ℤ → ℤ → Bool
leb_ℤ a b = leb (pos_part a + neg_part b) (pos_part b + neg_part a)

-- The residue modulo 2 ^ 64 (the conversion to `uint64`), and the `int64` that it stands for.
unfoldable pub to_uint64 : ℤ → ℕ
to_uint64 (pos n) = n % 2 ^ 64
to_uint64 (negsuc n) = 2 ^ 64 - 1 - n % 2 ^ 64

unfoldable pub of_uint64 : ℕ → ℤ
of_uint64 r = if ltb r (2 ^ 63) then pos r else negsuc (2 ^ 64 - 1 - r)

-- The value that 64-bit signed arithmetic keeps of an exact result.
unfoldable pub wrap64 : ℤ → ℤ
unfolding to_uint64 of_uint64
wrap64 a = of_uint64 (to_uint64 a)

pub wrap64_small : (n : ℕ) → n < 2 ^ 63 → wrap64 (pos n) ≡ pos n
unfolding wrap64
wrap64_small n h = ground arith

abbrev pub beq_ℤ : ℤ → ℤ → Bool
beq_ℤ (pos m) (pos n) = m == n
beq_ℤ (negsuc m) (negsuc n) = m == n
beq_ℤ _ _ = false

pub beq_ℤ-iff : (a b : ℤ) → (beq_ℤ a b ≡ true) ↔ (a ≡ b)
beq_ℤ-iff (pos m) (pos n) = ground (arith, nat_beq_iff m n)
beq_ℤ-iff (negsuc m) (negsuc n) = ground (arith, nat_beq_iff m n)
beq_ℤ-iff (pos m) (negsuc n) = ground arith
beq_ℤ-iff (negsuc m) (pos n) = ground arith

instance abbrev pub int_eq : Eq ℤ
int_eq = record { same = beq_ℤ; same_iff = beq_ℤ-iff }
