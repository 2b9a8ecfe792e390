-- ===== src/Prelude/Colons.antt =====
-- The colons of a text, which tell its parts apart.
use Prim.Native.Nat.{ℕ, zero, suc, ◌+◌, ◌/◌, ◌%◌}
use Prim.Native.Char.{code}
use Prim.Native.String.{String, ◌++◌}
use Prim.Native.String.append
use mathlib.Core.Path.{◌≡◌, refl}
use mathlib.Core.Bool.{Bool, true, false}
use native.Mathlib.Omega.{arith}
use shinzo_host_client.Prelude.Tests.{◌==◌, nat_eq, if◌then◌else◌}
use shinzo_host_client.Prelude.Int.{ℤ, pos, negsuc}
use shinzo_host_client.Prelude.Text.{wrap, digit, digits, show_int}

unfoldable pub colons : String → ℕ
colons String.[] = 0
colons (String.◌∷◌ c s) = (if code c == 58 then 1 else 0) + colons s

pub colons-append : (s t : String) → colons (s ++ t) ≡ colons s + colons t
unfolding colons
colons-append String.[] t = rw (append.nil t) (omega arith)
colons-append (String.◌∷◌ c s) t = rw (append.cons c s t) (omega (arith, colons-append s t))

pub colons-wrap : (s t : String) → colons (wrap s t) ≡ colons s + colons t
unfolding wrap
colons-wrap s t = colons-append s t

colons-if :
    (b : Bool) (s t : String) → colons s ≡ 0 → colons t ≡ 0 → colons (if b then s else t) ≡ 0
colons-if true s t p q = p
colons-if false s t p q = q

colons-digit : (d : ℕ) → colons (digit d) ≡ 0
unfolding digit colons
colons-digit d = colons-if (d == 0) "0" _ refl (
    colons-if (d == 1) "1" _ refl (
      colons-if (d == 2) "2" _ refl (
        colons-if (d == 3) "3" _ refl (
          colons-if (d == 4) "4" _ refl (
            colons-if (d == 5) "5" _ refl (
              colons-if (d == 6) "6" _ refl
                (colons-if (d == 7) "7" _ refl (colons-if (d == 8) "8" _ refl refl))))))))

colons-digits : (rounds n : ℕ) → colons (digits rounds n) ≡ 0
unfolding digits colons
colons-digits zero n = refl
colons-digits (suc rounds) n = ground (
  arith,
  colons-digit n,
  colons-digit (n % 10),
  colons-digits rounds (n / 10),
  colons-append (digits rounds (n / 10)) (digit (n % 10)),
)

pub colons-show_int : (n : ℤ) → colons (show_int n) ≡ 0
unfolding show_int colons
colons-show_int (pos n) = colons-digits 20 n
colons-show_int (negsuc n) =
    omega (arith, colons-append "-" (digits 20 (n + 1)), colons-digits 20 (n + 1))
