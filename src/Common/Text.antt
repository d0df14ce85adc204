-- ===== src/Common/Text.antt =====
-- std::to_string on integers, and sizes of texts.
use Prim.Native.Nat.{ℕ, zero, suc, ◌/◌, ◌%◌}
use Prim.Native.Char.{code}
use Prim.Native.String.{String}
use Prim.Native.String
use mathlib.Core.Path.{◌≡◌, refl}
use mathlib.Core.List.{List, [], ◌∷◌}
use multi_player_game.Common.Tests.{ltb, nat_beq, if◌then◌else◌}
use multi_player_game.Common.Int.{ℤ, pos, negsuc}

-- The code points of a text: its bytes, if it is ASCII.
abbrev pub codes : String → List ℕ
codes String.[] = []
codes (String.◌∷◌ c s) = code c ∷ codes s

-- Concatenation of texts.
infixr 66 ◌<>◌
abbrev pub ◌<>◌ : String → String → String
s <> t = String.◌++◌ s t

abbrev digit : ℕ → String
digit d =
    if nat_beq d 0
    then "0"
    else if nat_beq d 1
    then "1"
    else if nat_beq d 2
    then "2"
    else if nat_beq d 3
    then "3"
    else if nat_beq d 4
    then "4"
    else if nat_beq d 5
    then "5"
    else if nat_beq d 6
    then "6"
    else if nat_beq d 7
    then "7"
    else if nat_beq d 8
    then "8"
    else "9"

digits : ℕ → ℕ → String
digits zero n = ""
digits (suc fuel) n =
    let rest = digits fuel (n / 10) in if ltb n 10 then digit n else rest <> digit (n % 10)

-- The decimal digits of a number: each round drops one digit, so n + 1 rounds are enough.
unfoldable pub nat_to_string : ℕ → String
unfolding digits
nat_to_string n = digits (suc n) n

unfoldable pub to_string : ℤ → String
unfolding nat_to_string
to_string (pos n) = nat_to_string n
to_string (negsuc n) = "-" <> nat_to_string (suc n)

to_string_example : to_string (negsuc 1046) ≡ "-1047"
unfolding to_string
to_string_example = refl
