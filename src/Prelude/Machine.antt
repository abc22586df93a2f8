-- ===== src/Prelude/Machine.antt =====
-- The machine types: `int` in 32 bits of two's complement, `size_t` in 64 bits.
-- Overflow of a signed `int` has no meaning in C++; the model wraps it, as the machine does.
use Prim.Native.Nat.{ℕ, ◌<◌, ◌+◌, ◌-◌, ◌*◌, ◌^◌, ◌%◌}
use mathlib.Core.Path.{◌≡◌}
use native.Mathlib.Omega.{arith}
use rinha.Prelude.Tests.{ltb, if◌then◌else◌}
use rinha.Prelude.Int.{ℤ, pos, negsuc, pos_part, neg_part, sub_ℕ, ◌+ℤ◌, neg, ◌≤ℤ◌}

abbrev pub word32 : ℤ → ℕ
word32 (pos n) = n % 2 ^ 32
word32 (negsuc n) = 2 ^ 32 - 1 - n % 2 ^ 32

abbrev pub signed32 : ℕ → ℤ
signed32 w = if ltb w (2 ^ 31) then pos w else negsuc (2 ^ 32 - 1 - w)

unfoldable pub wrap_int : ℤ → ℤ
wrap_int z = signed32 (word32 z)

abbrev pub int_max : ℤ
int_max = pos (2 ^ 31 - 1)

abbrev pub int_min : ℤ
int_min = negsuc (2 ^ 31 - 1)

abbrev pub FitsInt : ℤ → Type 0
FitsInt z = (int_min ≤ℤ z) × (z ≤ℤ int_max)

pub wrap_int-FitsInt : (z : ℤ) → FitsInt (wrap_int z)
unfolding wrap_int
wrap_int-FitsInt (pos n) = ground arith
wrap_int-FitsInt (negsuc n) = ground arith

pub wrap_int_id : (z : ℤ) → FitsInt z → wrap_int z ≡ z
unfolding wrap_int
wrap_int_id (pos n) h = ground arith
wrap_int_id (negsuc n) h = ground arith

unfoldable pub add_int : ℤ → ℤ → ℤ
add_int a b = wrap_int (a +ℤ b)

unfoldable pub neg_int : ℤ → ℤ
neg_int a = wrap_int (neg a)

-- a * k for a numeral k.
unfoldable pub mul_int : ℤ → ℕ → ℤ
mul_int a k = wrap_int (sub_ℕ (pos_part a * k) (neg_part a * k))

pub add_int_id : (a b : ℤ) → FitsInt (a +ℤ b) → add_int a b ≡ a +ℤ b
unfolding add_int
add_int_id a b h = wrap_int_id (a +ℤ b) h

pub add_int-one : (k : ℕ) → k + 1 < 2147483648 → add_int (pos k) (pos 1) ≡ pos (k + 1)
unfolding add_int wrap_int ◌+ℤ◌
add_int-one k h = ground arith

pub add_int-FitsInt : (a b : ℤ) → FitsInt (add_int a b)
unfolding add_int
add_int-FitsInt a b = wrap_int-FitsInt (a +ℤ b)

pub neg_int_id : (a : ℤ) → FitsInt (neg a) → neg_int a ≡ neg a
unfolding neg_int
neg_int_id a h = wrap_int_id (neg a) h

-- `std::string::npos`, the largest `size_t`.
abbrev pub npos : ℕ
npos = 2 ^ 64 - 1

abbrev pub add_size : ℕ → ℕ → ℕ
add_size a b = (a + b) % 2 ^ 64

abbrev pub sub_size : ℕ → ℕ → ℕ
sub_size a b = (a + 2 ^ 64 - b) % 2 ^ 64
