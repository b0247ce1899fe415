-- ===== src/Prelude/Text.antt =====
-- Composed names, and numbers in decimal, as `format!` writes them.
use Prim.Native.Nat.{ℕ, zero, suc, ◌/◌, ◌%◌, ◌+◌}
use Prim.Native.String.{String, ◌++◌}
use df_derive.Prelude.Tests.{eqb, ltb, if◌then◌else◌}

digit : ℕ → String
digit d =
    if eqb d 0
    then "0"
    else if eqb d 1
    then "1"
    else if eqb d 2
    then "2"
    else if eqb d 3
    then "3"
    else if eqb d 4
    then "4"
    else if eqb d 5
    then "5"
    else if eqb d 6
    then "6"
    else if eqb d 7
    then "7"
    else if eqb d 8
    then "8"
    else "9"

-- A number has at most as many digits as itself and one.
decimal_digits : ℕ → ℕ → String → String
unfolding digit
decimal_digits zero n acc = acc
decimal_digits (suc f) n acc =
    let rest = decimal_digits f (n / 10) (digit (n % 10) ++ acc) in
    if ltb n 10 then digit n ++ acc else rest

unfoldable pub decimal_text : ℕ → String
unfolding decimal_digits
decimal_text n = decimal_digits (n + 1) n ""

-- `format!("{a}.{b}")`
unfoldable pub dotted : String → String → String
dotted a b = a ++ ("." ++ b)

-- `format!("field_{index}")`
unfoldable pub positional_name : ℕ → String
unfolding decimal_text
positional_name index = "field_" ++ decimal_text index
