-- ===== src/Rust/Words.antt =====
-- Machine words: the `u32` counters and their big-endian bytes. An addition that overflows panics in a
-- build with overflow checks (the debug profile) and wraps in one without (the release profile).
use merabriar.Prelude.{
  ℕ, ◌+◌, ◌/◌, ◌%◌, ◌^◌, ◌<◌, ◌≡◌, Bool, true, false, [], ◌∷◌, arith, ltb, if◌then◌else◌,
}
use merabriar.Rust.Text.{Bytes}
use merabriar.Rust.Result.{Result, ok, panic}

abbrev pub u32_mod : ℕ
u32_mod = 2 ^ 32

-- `x += 1` on a `u32`
unfoldable pub inc_u32 : Bool → ℕ → Result ℕ
inc_u32 overflow_checks n =
    if ltb (n + 1) u32_mod
    then ok (n + 1)
    else if overflow_checks
    then panic
    else ok ((n + 1) % u32_mod)

pub inc_u32_lt : (checks : Bool) (n : ℕ) → n + 1 < u32_mod → inc_u32 checks n ≡ ok (n + 1)
unfolding inc_u32
inc_u32_lt checks n h = ground arith

pub inc_u32_wraps : (n : ℕ) → n < u32_mod → inc_u32 false n ≡ ok ((n + 1) % u32_mod)
unfolding inc_u32
inc_u32_wraps n h = ground arith

pub inc_u32_panics : (n : ℕ) → n + 1 ≡ u32_mod → inc_u32 true n ≡ panic
unfolding inc_u32
inc_u32_panics n h = ground arith

-- `u32::to_be_bytes`
unfoldable pub to_be_bytes : ℕ → Bytes
to_be_bytes n = n / 2 ^ 24 ∷ n / 2 ^ 16 % 256 ∷ n / 2 ^ 8 % 256 ∷ n % 256 ∷ []
