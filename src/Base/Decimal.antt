-- ===== src/Base/Decimal.antt =====
-- `strconv.Itoa` and `strconv.Atoi` of Go, for numbers that are not negative.
use Prim.Native.Char.{Char, code}
use Prim.Native.Nat.{ℕ, zero, suc, ◌+◌, ◌-◌, ◌*◌, ◌/◌, ◌%◌}
use Prim.Native.String.{String}
use mathlib.Core.Bool.{Bool, ◌&&◌}
use mathlib.Core.List.{List, [], ◌∷◌}
use mathlib.Core.Option.{Option, none, some}
use brent.Base.Tests.{if◌then◌else◌, ltb, leb}
use brent.Base.Text.{◌<>◌}

abbrev digits : List String
digits = "0" ∷ "1" ∷ "2" ∷ "3" ∷ "4" ∷ "5" ∷ "6" ∷ "7" ∷ "8" ∷ "9" ∷ []

nth_digit : List String → ℕ → String
nth_digit [] n = ""
nth_digit (d ∷ ds) zero = d
nth_digit (d ∷ ds) (suc n) = nth_digit ds n

itoa_from : ℕ → ℕ → String
unfolding nth_digit
itoa_from zero n = ""
itoa_from (suc f) n =
    let front = itoa_from f (n / 10) in
    (if ltb n 10 then "" else front) <> nth_digit digits (n % 10)

-- `Itoa`; a number has no more digits than its value and one
unfoldable pub itoa : ℕ → String
unfolding itoa_from
itoa n = itoa_from (suc n) n

abbrev is_digit : Char → Bool
is_digit c = leb b'0' (code c) && leb (code c) b'9'

atoi_from : ℕ → String → Option ℕ
atoi_from n String.[] = some n
atoi_from n (String.◌∷◌ c s) =
    let rest = atoi_from (n * 10 + (code c - b'0')) s in if is_digit c then rest else none

abbrev max_int : ℕ
max_int = 9223372036854775807

abbrev in_range : Option ℕ → Option ℕ
in_range none = none
in_range (some n) = if leb n max_int then some n else none

unsigned : String → Option ℕ
unfolding atoi_from
unsigned String.[] = none
unsigned (String.◌∷◌ c s) = in_range (atoi_from 0 (String.◌∷◌ c s))

abbrev is_plus : Char → Bool
is_plus c = leb b'+' (code c) && leb (code c) b'+'

-- `Atoi`; a text that is no number, or out of the range of `int`, is none, and so is a negative
-- number, which every caller treats as it treats an error
unfoldable pub atoi : String → Option ℕ
unfolding unsigned
atoi String.[] = none
atoi (String.◌∷◌ c s) = if is_plus c then unsigned s else unsigned (String.◌∷◌ c s)
