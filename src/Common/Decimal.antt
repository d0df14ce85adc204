-- ===== src/Common/Decimal.antt =====
-- std::stoi, std::stoll and std::atoi on the bytes of a text.
use Prim.Native.Nat.{ℕ, zero, suc, ◌+◌, ◌-◌, ◌*◌, ◌/◌, ◌%◌, ◌≤◌, ◌<◌, ◌^◌}
use mathlib.Core.Path.{◌≡◌, refl}
use mathlib.Core.Bool.{Bool, true, ◌&&◌, ◌||◌}
use mathlib.Core.Option.{Option, none, some}
use mathlib.Core.List.{List, [], ◌∷◌, ◌++◌}
use mathlib.Core.Logic.{◌≢◌, inl, inr}
use native.Mathlib.Omega.{arith}
use native.Mathlib.Nat.{pow-succ'}
use multi_player_game.Common.Lists.{length, length-append}
use multi_player_game.Common.Tests.{leb, ltb, nat_beq, if◌then◌else◌, Bool-cases}
use multi_player_game.Common.Int.{ℤ, pos, negsuc, ltb_ℤ, IsInt}

abbrev pub is_digit : ℕ → Bool
is_digit c = leb b'0' c && leb c b'9'

abbrev is_space : ℕ → Bool
is_space c = nat_beq c b' ' || (leb 9 c && leb c 13)

-- The number that the digits at the front stand for, after those already read.
read_digits : ℕ → List ℕ → ℕ
read_digits n [] = n
read_digits n (c ∷ cs) =
    let rest = read_digits (10 * n + (c - b'0')) cs in if is_digit c then rest else n

negate : ℕ → ℤ
negate zero = pos 0
negate (suc n) = negsuc n

-- `none` where there is no digit.
read_magnitude : List ℕ → Option ℕ
read_magnitude [] = none
read_magnitude (c ∷ cs) = if is_digit c then some (read_digits 0 (c ∷ cs)) else none

map_number : (ℕ → ℤ) → Option ℕ → Option ℤ
map_number f none = none
map_number f (some n) = some (f n)

read_signed : List ℕ → Option ℤ
read_signed [] = none
read_signed (c ∷ cs) =
    if nat_beq c b'-'
    then map_number negate (read_magnitude cs)
    else if nat_beq c b'+'
    then map_number pos (read_magnitude cs)
    else map_number pos (read_magnitude (c ∷ cs))

skip_space : List ℕ → List ℕ
skip_space [] = []
skip_space (c ∷ cs) = let rest = skip_space cs in if is_space c then rest else c ∷ cs

-- The value of a text that starts with a number, which more text may follow.
unfoldable pub read_number : List ℕ → Option ℤ
unfolding read_digits read_magnitude map_number read_signed skip_space negate
read_number s = read_signed (skip_space s)

-- Out of range, they throw.
abbrev in_range : ℤ → ℤ → Option ℤ → Option ℤ
in_range lo hi none = none
in_range lo hi (some z) = if ltb_ℤ z lo || ltb_ℤ hi z then none else some z

unfoldable pub stoi : List ℕ → Option ℤ
unfolding read_number
stoi s = in_range (negsuc (2 ^ 31 - 1)) (pos (2 ^ 31 - 1)) (read_number s)

unfoldable pub stoll : List ℕ → Option ℤ
unfolding read_number
stoll s = in_range (negsuc (2 ^ 63 - 1)) (pos (2 ^ 63 - 1)) (read_number s)

stoi_example : stoi (b' ' ∷ b'-' ∷ b'1' ∷ b'2' ∷ b'x' ∷ []) ≡ some (negsuc 11)
unfolding stoi
stoi_example = refl

-- The decimal digits of a number: each round drops one digit, so n + 1 rounds are enough.
digits : ℕ → ℕ → List ℕ
digits zero n = []
digits (suc fuel) n =
    let rest = digits fuel (n / 10) in
    if ltb n 10 then (b'0' + n) ∷ [] else rest ++ (b'0' + n % 10) ∷ []

unfoldable pub decimal : ℕ → List ℕ
unfolding digits
decimal n = digits (suc n) n

-- `std::to_string` of an `int`.
unfoldable pub decimal_int : ℤ → List ℕ
unfolding decimal
decimal_int (pos n) = decimal n
decimal_int (negsuc n) = b'-' ∷ decimal (suc n)

-- The number that digits spell, after those already read.
unfoldable pub spelled : ℕ → List ℕ → ℕ
spelled n [] = n
spelled n (c ∷ cs) = spelled (10 * n + (c - b'0')) cs

abbrev pub AllDigits : List ℕ → Type 0
AllDigits [] = Unit {0}
AllDigits (c ∷ cs) = (b'0' ≤ c) × (c ≤ b'9') × AllDigits cs

spelled-append : (xs : List ℕ) (n c : ℕ) → spelled n (xs ++ c ∷ []) ≡ 10 * spelled n xs + (c - b'0')
unfolding spelled
spelled-append [] n c = refl
spelled-append (x ∷ xs) n c = spelled-append xs (10 * n + (x - b'0')) c

AllDigits-append :
    (xs : List ℕ) (c : ℕ) → AllDigits xs → b'0' ≤ c → c ≤ b'9' → AllDigits (xs ++ c ∷ [])
AllDigits-append [] c h lo hi = (lo, hi, tt)
AllDigits-append (x ∷ xs) c (lo', hi', h) lo hi = (lo', hi', AllDigits-append xs c h lo hi)

digits_lem : (fuel n : ℕ) → n < fuel → (spelled 0 (digits fuel n) ≡ n) × AllDigits (digits fuel n)
unfolding digits spelled
digits_lem zero n h = absurd (omega arith)
digits_lem (suc fuel) n h = elim (Bool-cases (ltb n 10)) [
  | inl one ↦ let small : n < 10 = ground arith in rw (one, digits) (omega arith)
  | inr more ↦
      let big : 10 ≤ n = ground arith in
      rw (more, digits)
        (let (e, all) = digits_lem fuel (n / 10) (omega arith) in
          (
            omega (arith, e, spelled-append (digits fuel (n / 10)) 0 (b'0' + n % 10)),
            AllDigits-append (digits fuel (n / 10)) (b'0' + n % 10) all (omega arith) (omega arith),
          ))
]

-- The digits of a number are digits, and spell it.
pub decimal_lem : (n : ℕ) → (spelled 0 (decimal n) ≡ n) × AllDigits (decimal n)
unfolding decimal
decimal_lem n = digits_lem (suc n) n (omega arith)

length-digits : (k fuel n : ℕ) → n < 10 ^ suc k → length (digits fuel n) ≤ suc k
unfolding digits
length-digits k zero n h = omega arith
length-digits zero (suc fuel) n h =
    let one : ltb n 10 ≡ true = ground arith in rw (one, digits) (omega arith)
length-digits (suc k) (suc fuel) n h = elim (Bool-cases (ltb n 10)) [
  | inl one ↦ rw (one, digits) (omega arith)
  | inr more ↦
      rw (more, digits)
        (omega (
          arith,
          length-append (digits fuel (n / 10)) ((b'0' + n % 10) ∷ []),
          length-digits k fuel (n / 10) (omega (arith, pow-succ' 10 (suc k))),
        ))
]

pub length-decimal : (k n : ℕ) → n < 10 ^ suc k → length (decimal n) ≤ suc k
unfolding decimal
length-decimal k n h = length-digits k (suc n) n h

-- An `int` has at most ten digits and a sign.
pub length-decimal_int : (z : ℤ) → IsInt z → length (decimal_int z) ≤ 11
unfolding decimal_int decimal
length-decimal_int (pos n) h =
    let few : length (digits (suc n) n) ≤ 10 = length-digits 9 (suc n) n (ground arith) in
    omega arith
length-decimal_int (negsuc n) h =
    let few : length (digits (suc (suc n)) (suc n)) ≤ 10 =
      length-digits 9 (suc (suc n)) (suc n) (ground arith) in
    omega arith

append-ne-nil : (xs : List ℕ) (c : ℕ) → xs ++ c ∷ [] ≢ []
append-ne-nil [] c = cc
append-ne-nil (x ∷ xs) c = cc

some_digit : (fuel n : ℕ) → digits (suc fuel) n ≢ []
unfolding digits
some_digit fuel n = elim (Bool-cases (ltb n 10)) [
  | inl one ↦ rw (one, digits) cc
  | inr more ↦ rw (more, digits) (append-ne-nil (digits fuel (n / 10)) (b'0' + n % 10))
]

pub decimal-ne-nil : (n : ℕ) → decimal n ≢ []
unfolding decimal digits
decimal-ne-nil n = some_digit n n

read_digits_all : (ds : List ℕ) (n : ℕ) → AllDigits ds → read_digits n ds ≡ spelled n ds
unfolding read_digits spelled
read_digits_all [] n h = refl
read_digits_all (d ∷ ds) n h = ground (arith, read_digits_all ds (10 * n + (d - b'0')))

read_number-digits :
    (ds : List ℕ) → ds ≢ [] → AllDigits ds → read_number ds ≡ some (pos (spelled 0 ds))
unfolding read_number
read_number-digits [] ne h = absurd (ne refl)
read_number-digits (d ∷ ds) ne h = ground (arith, read_digits_all (d ∷ ds) 0)

-- `std::stoi` reads an `int` that is not negative back from its digits.
pub stoi-decimal : (n : ℕ) → n < 2 ^ 31 → stoi (decimal n) ≡ some (pos n)
unfolding stoi
stoi-decimal n h =
    let (e, all) = decimal_lem n in
    let read = read_number-digits (decimal n) (decimal-ne-nil n) all in rw (read, e) (ground arith)

read_magnitude-digits :
    (ds : List ℕ) → ds ≢ [] → AllDigits ds → read_magnitude ds ≡ some (spelled 0 ds)
unfolding read_magnitude
read_magnitude-digits [] ne h = absurd (ne refl)
read_magnitude-digits (d ∷ ds) ne h = ground (arith, read_digits_all (d ∷ ds) 0)

-- And any `int` from its text.
pub stoi-decimal_int : (z : ℤ) → IsInt z → stoi (decimal_int z) ≡ some z
unfolding stoi decimal_int read_number read_signed skip_space map_number negate
stoi-decimal_int (pos n) h = stoi-decimal n (ground arith)
stoi-decimal_int (negsuc n) h =
    let (e, all) = decimal_lem (suc n) in
    let read = read_magnitude-digits (decimal (suc n)) (decimal-ne-nil (suc n)) all in
    rw (read, e) (ground arith)
