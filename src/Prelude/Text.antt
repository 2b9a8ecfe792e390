-- ===== src/Prelude/Text.antt =====
-- Texts of errors: one behind another, and one within another.
use Prim.Native.Nat.{ℕ, zero, suc, ◌+◌, ◌/◌, ◌%◌}
use Prim.Native.String.{String, ◌++◌, find, len}
use mathlib.Core.Bool.{Bool}
use shinzo_host_client.Prelude.Tests.{◌==◌, nat_eq, leb, ltb, if◌then◌else◌}
use shinzo_host_client.Prelude.Int.{ℤ, pos, negsuc}

-- `fmt.Errorf` with one text behind a prefix.
unfoldable pub wrap : String → String → String
wrap prefix e = prefix ++ e

-- `strings.Contains`
unfoldable pub contains_text : String → String → Bool
contains_text s t = leb (find s t) (len s)

unfoldable pub digit : ℕ → String
digit d =
    if d == 0
    then "0"
    else if d == 1
    then "1"
    else if d == 2
    then "2"
    else if d == 3
    then "3"
    else if d == 4
    then "4"
    else if d == 5
    then "5"
    else if d == 6
    then "6"
    else if d == 7
    then "7"
    else if d == 8
    then "8"
    else "9"

-- The decimal digits of a number, for as many of them as there are rounds.
unfoldable pub digits : ℕ → ℕ → String
unfolding digit
digits zero n = ""
digits (suc rounds) n =
    let rest = digits rounds (n / 10) in if ltb n 10 then digit n else rest ++ digit (n % 10)

-- `%d` of an `int64`, which has at most 19 digits.
unfoldable pub show_int : ℤ → String
unfolding digits
show_int (pos n) = digits 20 n
show_int (negsuc n) = "-" ++ digits 20 (n + 1)
