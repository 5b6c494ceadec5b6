-- ===== src/Rust/Int.antt =====
-- Signed integers: the `i64` and `i32` values that the program stores, compares and passes on, and the
-- two's complement of an `i32`.
use merabriar.Prelude.{
  ap, ℕ, ◌-◌, ◌%◌, ◌^◌, ◌<◌, ◌≡◌, Bool, true, false, leb, ltb, if◌then◌else◌, arith,
}

-- `negsuc n` is -(n + 1).
pub data ℤ : Type 0 where
  pos : ℕ → ℤ
  negsuc : ℕ → ℤ

-- `a <= b`
abbrev pub leb_ℤ : ℤ → ℤ → Bool
leb_ℤ (pos m) (pos n) = leb m n
leb_ℤ (pos m) (negsuc n) = false
leb_ℤ (negsuc m) (pos n) = true
leb_ℤ (negsuc m) (negsuc n) = leb n m

-- The 32 bits of an `i32`, as a number, and the `i32` of 32 bits.
unfoldable pub to_bits : ℤ → ℕ
to_bits (pos n) = n % 2 ^ 32
to_bits (negsuc n) = 2 ^ 32 - 1 - n % 2 ^ 32

unfoldable pub from_bits : ℕ → ℤ
from_bits w = if ltb w (2 ^ 31) then pos w else negsuc (2 ^ 32 - 1 - w)

-- `n as i32`, for a `usize`
unfoldable pub as_i32 : ℕ → ℤ
unfolding from_bits
as_i32 n = from_bits (n % 2 ^ 32)

-- The number of rounds of `for _ in 0..n`
abbrev pub rounds : ℤ → ℕ
rounds (pos n) = n
rounds (negsuc n) = 0

pub to_bits-lt : (n : ℤ) → to_bits n < 2 ^ 32
unfolding to_bits
to_bits-lt (pos n) = omega arith
to_bits-lt (negsuc n) = omega arith

to_bits-as_i32 : (n : ℕ) → to_bits (as_i32 n) ≡ n % 2 ^ 32
unfolding to_bits as_i32
to_bits-as_i32 n = ground arith

pub to_bits-from_bits : (w : ℕ) → w < 2 ^ 32 → to_bits (from_bits w) ≡ w
unfolding to_bits from_bits
to_bits-from_bits w h = ground arith

pub as_i32_small : (n : ℕ) → n < 2 ^ 31 → as_i32 n ≡ pos n
unfolding as_i32
as_i32_small n h = ground arith

pub from_bits-as_i32 : (n : ℕ) → from_bits (to_bits (as_i32 n)) ≡ as_i32 n
unfolding as_i32
from_bits-as_i32 n = ap from_bits (to_bits-as_i32 n)
