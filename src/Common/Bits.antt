-- ===== src/Common/Bits.antt =====
-- `|` of numbers with no common digit is `+`, and `& 0xff` is `% 256`.
use Prim.Native.Nat.{
  ℕ, zero, suc, ◌+◌, ◌*◌, ◌/◌, ◌%◌, ◌^◌, ◌≤◌, ◌<◌, min, max, bit_and, bit_or, digits,
  bit_and-bitwise, bit_or-bitwise,
}
use mathlib.Core.Path.{◌≡◌, refl}
use native.Mathlib.Nat.{pow-suc}
use native.Mathlib.Omega.{arith}

-- Any two numbers of rounds give the digits of x, if both are at least x.
module _ (rest : ℕ → ℕ) (op : ℕ → ℕ → ℕ) where
  rounds : (x y k l : ℕ) → x ≤ k → x ≤ l → digits rest op k x y ≡ digits rest op l x y
  rounds zero y zero zero h i = refl
  rounds zero y zero (suc l) h i = refl
  rounds zero y (suc k) zero h i = refl
  rounds zero y (suc k) (suc l) h i = refl
  rounds (suc x) y zero l h i = absurd (omega arith)
  rounds (suc x) y (suc k) zero h i = absurd (omega arith)
  rounds (suc x) y (suc k) (suc l) h i =
      let halves = rounds (suc x / 2) (y / 2) k l (omega arith) (omega arith) in omega arith

-- The lowest digit, and the others.
last_and : (x y : ℕ) → bit_and x y ≡ min (x % 2) (y % 2) + 2 * bit_and (x / 2) (y / 2)
last_and zero y = omega (arith, bit_and-bitwise 0 y, bit_and-bitwise 0 (y / 2))
last_and (suc x) y =
    let half = suc x / 2 in
    let same = rounds (λ b. zero) min half (y / 2) x half (omega arith) (omega arith) in
    omega (arith, same, bit_and-bitwise half (y / 2), bit_and-bitwise (suc x) y)

last_or : (x y : ℕ) → bit_or x y ≡ max (x % 2) (y % 2) + 2 * bit_or (x / 2) (y / 2)
last_or zero y = omega (arith, bit_or-bitwise 0 y, bit_or-bitwise 0 (y / 2))
last_or (suc x) y =
    let half = suc x / 2 in
    let same = rounds (λ b. b) max half (y / 2) x half (omega arith) (omega arith) in
    omega (arith, same, bit_or-bitwise half (y / 2), bit_or-bitwise (suc x) y)

no_mask : (bound x : ℕ) → x ≤ bound → bit_and x 0 ≡ 0
no_mask bound zero h = refl
no_mask zero (suc x) h = absurd (omega arith)
no_mask (suc bound) (suc x) h =
    let rest = no_mask bound (suc x / 2) (omega arith) in omega (arith, rest, last_and (suc x) 0)

low_four : (x : ℕ) → bit_and x 15 ≡ x % 16
low_four x =
    let none_left = no_mask (x / 2 / 2 / 2 / 2) (x / 2 / 2 / 2 / 2) (omega arith) in
    let one_left = last_and (x / 2 / 2 / 2) 1 in
    let two_left = last_and (x / 2 / 2) 3 in
    let three_left = last_and (x / 2) 7 in
    omega (arith, none_left, one_left, two_left, three_left, last_and x 15)

pub bit_and_byte : (a : ℕ) → bit_and a 255 ≡ a % 256
bit_and_byte a =
    let four_left = low_four (a / 2 / 2 / 2 / 2) in
    let five_left = last_and (a / 2 / 2 / 2) 31 in
    let six_left = last_and (a / 2 / 2) 63 in
    let seven_left = last_and (a / 2) 127 in
    omega (arith, four_left, five_left, six_left, seven_left, last_and a 255)

-- `a | (b << k)` for a below 2^k.
pub bit_or_shifted : (k a b : ℕ) → a < 2 ^ k → bit_or a (b * 2 ^ k) ≡ a + b * 2 ^ k
bit_or_shifted zero a b h =
    let none_left : a ≡ 0 = omega arith in
    rw none_left (omega (arith, bit_or-bitwise 0 (b * 2 ^ zero)))
bit_or_shifted (suc k) a b h =
    let double : 2 ^ suc k ≡ 2 ^ k * 2 = pow-suc 2 k in
    let same : b * 2 ^ suc k ≡ b * 2 ^ k * 2 = rw double (omega arith) in
    let half : b * 2 ^ k * 2 / 2 ≡ b * 2 ^ k = omega arith in
    rw same (
      omega (
        arith,
        rw half at (last_or a (b * 2 ^ k * 2)),
        bit_or_shifted k (a / 2) b (omega (arith, double)),
      ))
