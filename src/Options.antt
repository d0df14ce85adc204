-- ===== src/Options.antt =====
-- The loop over `argv` that server/src/main.cpp and simulator/src/main.cpp have, over what each makes of
-- an option that stands alone and of one with a value.
--
-- std::atoi gives 0 where there is no number; out of range, where it is undefined, it gives 0 here.
use multi_player_game.Common.{
  ℕ, ◌-◌, ◌<◌, ◌%◌, ◌^◌, ◌≡◌, ap, ◌∙◌, Bool, ◌||◌, List, [], ◌∷◌, Option, none, some, arith,
  if◌then◌else◌,
}
use multi_player_game.Common.Int.{ℤ, pos, negsuc, IsInt}
use multi_player_game.Common.Text.{codes}
use multi_player_game.Common.Bytes.{bytes_beq}
use multi_player_game.Common.Decimal.{stoi, decimal, decimal_int, stoi-decimal, stoi-decimal_int}

abbrev pub or_zero : Option ℤ → ℤ
or_zero none = pos 0
or_zero (some z) = z

unfoldable pub atoi : List ℕ → ℤ
unfolding stoi
atoi s = or_zero (stoi s)

-- `static_cast<uint16_t>`
unfoldable pub to_u16 : ℤ → ℕ
to_u16 (pos n) = n % 2 ^ 16
to_u16 (negsuc n) = 2 ^ 16 - 1 - n % 2 ^ 16

pub port_lem : (n : ℕ) → n < 2 ^ 16 → to_u16 (atoi (decimal n)) ≡ n
unfolding to_u16 atoi
port_lem n h =
    let same : n % 2 ^ 16 ≡ n = omega arith in
    ap (λ o. to_u16 (or_zero o)) (stoi-decimal n (omega arith)) ∙ same

pub number_lem : (z : ℤ) → IsInt z → atoi (decimal_int z) ≡ z
unfolding atoi
number_lem z h = ap or_zero (stoi-decimal_int z h)

-- How the parsing ends: the program goes on, or `main` returns 0 or 1.
pub data Parsed (Config : Type 0) : Type 0 where
  started : Config → Parsed Config
  helped : Parsed Config
  unknown : List ℕ → Parsed Config

abbrev pub is_help : List ℕ → Bool
is_help arg = bytes_beq arg (codes "--help") || bytes_beq arg (codes "-h")

module _ {Config : Type 0} (set_flag : List ℕ → Config → Option Config)
    (set_option : List ℕ → List ℕ → Config → Option Config) where
  -- Go on with the changed configuration, or try something else.
  abbrev pub or_else : Option Config → (Config → Parsed Config) → Parsed Config → Parsed Config
  or_else (some c) k other = k c
  or_else none k other = other

  -- An option with a value is one only if an argument follows.
  unfoldable pub parse_all : List (List ℕ) → Config → Parsed Config
  parse_all [] c = started c
  parse_all (arg ∷ []) c =
      if is_help arg then helped else or_else (set_flag arg c) started (unknown arg)
  parse_all (arg ∷ value ∷ rest) c =
      let next = parse_all (value ∷ rest) in
      let after = parse_all rest in
      if is_help arg
      then helped
      else or_else (set_flag arg c) next (or_else (set_option arg value c) after (unknown arg))
