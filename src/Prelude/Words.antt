-- ===== src/Prelude/Words.antt =====
-- Unsigned machine words: a `u64` is a number below `2 ^ 64`, and plain `+` and `-` wrap, as in a
-- release build.
use Prim.Native.Nat.{ℕ, ◌+◌, ◌-◌, ◌/◌, ◌%◌, ◌^◌, ◌<◌, bit_and}
use mathlib.Core.Path.{◌≡◌}
use native.Mathlib.Omega.{arith}
use jotunheim.Prelude.Tests.{ltb, if◌then◌else◌}
use jotunheim.Prelude.Bits.{bit_and-shift, bit_and-low}

abbrev pub u64_mod : ℕ
u64_mod = 2 ^ 64

abbrev pub u64_max : ℕ
u64_max = 2 ^ 64 - 1

abbrev pub add64 : ℕ → ℕ → ℕ
add64 a b = (a + b) % u64_mod

abbrev pub sub64 : ℕ → ℕ → ℕ
sub64 a b = (a + u64_mod - b) % u64_mod

abbrev pub saturating_add : ℕ → ℕ → ℕ
saturating_add a b = if ltb u64_max (a + b) then u64_max else a + b

abbrev pub saturating_sub : ℕ → ℕ → ℕ
saturating_sub a b = a - b

-- `!x`
abbrev pub not64 : ℕ → ℕ
not64 x = u64_max - x

-- The mask of page-aligned addresses.
pub bit_and_page : (x : ℕ) → x < u64_mod → bit_and x (not64 0xfff) ≡ x - x % 4096
bit_and_page x h =
    ground (arith, bit_and-shift 12 (x / 4096) (x % 4096) (2 ^ 52 - 1), bit_and-low 52 0 (x / 4096))

pub bit_and_nibble : (x : ℕ) → bit_and x 0xf ≡ x % 16
bit_and_nibble x = ground (arith, bit_and-low 4 (x / 16) (x % 16))
