-- ===== src/Base/Text.antt =====
-- JavaScript strings as texts of code points.
use Prim.Native.Nat.{ℕ, zero, suc, ◌+◌, ◌-◌, ◌*◌, ◌/◌, ◌%◌, ◌≤◌}
use Prim.Native.Char.{Char, code}
use Prim.Native.String.{String, ◌++◌}
use native.Mathlib.Omega.{arith}
use mathlib.Core.List.{List, [], ◌∷◌}
use thelab_ms.Base.Tests.{ltb, if◌then◌else◌}

-- A template literal, as the list of its parts.
unfoldable pub template : List String → String
template [] = ""
template (s ∷ parts) = s ++ template parts

-- value.length: a code point above the basic plane is two UTF-16 units.
unfoldable pub utf16_length : String → ℕ
utf16_length String.[] = 0
utf16_length (String.◌∷◌ c s) = (if ltb (code c) 65536 then 1 else 2) + utf16_length s

-- String(n) of a natural number; `digit n` is its last decimal digit.
digit : ℕ → String
digit n =
    if ltb n 1
    then "0"
    else if ltb n 2
    then "1"
    else if ltb n 3
    then "2"
    else if ltb n 4
    then "3"
    else if ltb n 5
    then "4"
    else if ltb n 6
    then "5"
    else if ltb n 7
    then "6"
    else if ltb n 8
    then "7"
    else if ltb n 9
    then "8"
    else "9"

-- A number has at most as many digits as its value, and one.
digits_from : ℕ → ℕ → String
digits_from zero n = ""
digits_from (suc fuel) n =
    let rest = digits_from fuel (n / 10) in if ltb n 10 then digit n else rest ++ digit (n % 10)

unfoldable pub decimal : ℕ → String
unfolding digit digits_from
decimal n = digits_from (suc n) n

-- text.slice(n), for a text whose first `n` characters are of the basic plane.
unfoldable pub drop_chars : ℕ → String → String
drop_chars zero s = s
drop_chars (suc n) String.[] = ""
drop_chars (suc n) (String.◌∷◌ c s) = drop_chars n s

digits_value : ℕ → String → ℕ
digits_value n String.[] = n
digits_value n (String.◌∷◌ c s) = digits_value (n * 10 + (code c - 48)) s

-- Number(text), for a text of decimal digits.
unfoldable pub number_of : String → ℕ
unfolding digits_value
number_of s = digits_value 0 s

digits_value-ge : (n : ℕ) (s : String) → n ≤ digits_value n s
unfolding digits_value
digits_value-ge n String.[] = omega arith
digits_value-ge n (String.◌∷◌ c s) = omega (arith, digits_value-ge (n * 10 + (code c - 48)) s)

-- A number is not below its first digit.
pub number_of-ge : (c : Char) (s : String) → code c - 48 ≤ number_of (String.◌∷◌ c s)
unfolding number_of
number_of-ge c s = omega (arith, digits_value-ge (0 * 10 + (code c - 48)) s)
