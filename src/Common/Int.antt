-- ===== src/Common/Int.antt =====
-- Signed integers over the native numbers, and C++'s 32-bit `int`.
use Prim.Native.Nat.{ℕ, suc, ◌+◌, ◌-◌, ◌≤◌, ◌<◌, ◌%◌, ◌^◌}
use mathlib.Core.Path.{◌≡◌, refl}
use mathlib.Core.Logic.{◌↔◌}
use mathlib.Core.Bool.{Bool, true}
use native.Mathlib.Omega.{arith}
use multi_player_game.Common.Tests.{ltb, leb, nat_beq, if◌then◌else◌, Eq}

-- `negsuc n` is -(n + 1).
pub data ℤ : Type 0 where
  pos : ℕ → ℤ
  negsuc : ℕ → ℤ

abbrev pub pos_part : ℤ → ℕ
pos_part (pos n) = n
pos_part (negsuc n) = 0

abbrev pub neg_part : ℤ → ℕ
neg_part (pos n) = 0
neg_part (negsuc n) = suc n

abbrev pub sub_ℕ : ℕ → ℕ → ℤ
sub_ℕ a b = if leb b a then pos (a - b) else negsuc (b - a - 1)

infixl 65 ◌+ℤ◌ ◌-ℤ◌
infix 50 ◌≤ℤ◌ ◌<ℤ◌
unfoldable pub ◌+ℤ◌ : ℤ → ℤ → ℤ
a +ℤ b = sub_ℕ (pos_part a + pos_part b) (neg_part a + neg_part b)

unfoldable pub ◌-ℤ◌ : ℤ → ℤ → ℤ
a -ℤ b = sub_ℕ (pos_part a + neg_part b) (neg_part a + pos_part b)

abbrev pub ◌≤ℤ◌ : ℤ → ℤ → Type 0
a ≤ℤ b = pos_part a + neg_part b ≤ pos_part b + neg_part a

abbrev pub ◌<ℤ◌ : ℤ → ℤ → Type 0
a <ℤ b = pos_part a + neg_part b < pos_part b + neg_part a

abbrev pub ltb_ℤ : ℤ → ℤ → Bool
ltb_ℤ a b = ltb (pos_part a + neg_part b) (pos_part b + neg_part a)

abbrev pub beq_ℤ : ℤ → ℤ → Bool
beq_ℤ a b = nat_beq (pos_part a + neg_part b) (pos_part b + neg_part a)

pub beq_ℤ_iff : (a b : ℤ) → (beq_ℤ a b ≡ true) ↔ (a ≡ b)
beq_ℤ_iff a b = ground arith

instance abbrev pub int_eq : Eq ℤ
int_eq = record { same = beq_ℤ; decides = beq_ℤ_iff }

-- std::max and std::clamp on int.
abbrev pub max_ℤ : ℤ → ℤ → ℤ
max_ℤ a b = if ltb_ℤ a b then b else a

abbrev pub clamp_ℤ : ℤ → ℤ → ℤ → ℤ
clamp_ℤ v lo hi = if ltb_ℤ v lo then lo else if ltb_ℤ hi v then hi else v

-- The value of a number as an `int`, in two's complement.
abbrev pub int_of_bits : ℕ → ℤ
int_of_bits w = if ltb w (2 ^ 31) then pos w else negsuc (2 ^ 32 - w - 1)

unfoldable pub wrap_int : ℤ → ℤ
wrap_int (pos n) = int_of_bits (n % 2 ^ 32)
wrap_int (negsuc n) = int_of_bits (2 ^ 32 - 1 - n % 2 ^ 32)

-- `a + b`, `a - b` on int. What C++ leaves undefined, a sum out of range, wraps here.
unfoldable pub int_add : ℤ → ℤ → ℤ
unfolding wrap_int ◌+ℤ◌
int_add a b = wrap_int (a +ℤ b)

unfoldable pub int_sub : ℤ → ℤ → ℤ
unfolding wrap_int ◌-ℤ◌
int_sub a b = wrap_int (a -ℤ b)

-- The same for an int64_t, whose fetch_add wraps.
abbrev long_of_bits : ℕ → ℤ
long_of_bits w = if ltb w (2 ^ 63) then pos w else negsuc (2 ^ 64 - w - 1)

unfoldable pub wrap_long : ℤ → ℤ
wrap_long (pos n) = long_of_bits (n % 2 ^ 64)
wrap_long (negsuc n) = long_of_bits (2 ^ 64 - 1 - n % 2 ^ 64)

unfoldable pub long_add : ℤ → ℤ → ℤ
unfolding wrap_long ◌+ℤ◌
long_add a b = wrap_long (a +ℤ b)

wrap_long_example : long_add (pos (2 ^ 63 - 1)) (pos 1) ≡ negsuc (2 ^ 63 - 1)
unfolding long_add
wrap_long_example = refl

abbrev pub int_max : ℤ
int_max = pos 0x7fff_ffff

abbrev pub int_min : ℤ
int_min = negsuc 0x7fff_ffff

abbrev pub IsInt : ℤ → Type 0
IsInt z = (int_min ≤ℤ z) × (z ≤ℤ int_max)

pub wrap_int-IsInt : (z : ℤ) → IsInt (wrap_int z)
unfolding wrap_int
wrap_int-IsInt (pos n) = ground arith
wrap_int-IsInt (negsuc n) = ground arith

pub wrap_int_of_IsInt : (z : ℤ) → IsInt z → wrap_int z ≡ z
unfolding wrap_int
wrap_int_of_IsInt (pos n) h = ground arith
wrap_int_of_IsInt (negsuc n) h = ground arith

-- A sum that fits is the sum.
pub int_add_fits : (a b : ℤ) → IsInt (a +ℤ b) → int_add a b ≡ a +ℤ b
unfolding int_add
int_add_fits a b h = wrap_int_of_IsInt (a +ℤ b) h

pub +ℤ_parts :
    (a b : ℤ)
    → pos_part (a +ℤ b) + neg_part a + neg_part b ≡ neg_part (a +ℤ b) + pos_part a + pos_part b
unfolding ◌+ℤ◌
+ℤ_parts a b = ground arith

pub eq_of_parts : (a b : ℤ) → pos_part a + neg_part b ≡ pos_part b + neg_part a → a ≡ b
eq_of_parts a b h = ground arith

pub clamp_ℤ_bounds : (v lo hi : ℤ) → lo ≤ℤ hi → (lo ≤ℤ clamp_ℤ v lo hi) × (clamp_ℤ v lo hi ≤ℤ hi)
clamp_ℤ_bounds v lo hi h = ground arith

pub clamp_ℤ_idem : (v lo hi : ℤ) → lo ≤ℤ hi → clamp_ℤ (clamp_ℤ v lo hi) lo hi ≡ clamp_ℤ v lo hi
clamp_ℤ_idem v lo hi h = ground arith
