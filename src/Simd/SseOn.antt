-- ===== src/Simd/SseOn.antt =====
-- The control registers that `init` leaves, bit by bit: jotunheimkernel/src/arch/x86_64/simd/mod.rs.
use jotunheim.Prelude.{
  ℕ, ◌/◌, ◌%◌, ◌^◌, ◌≡◌, Bool, true, false, bit_and, bit_or, arith, ◌&&◌, Bool-cases, inl, inr,
}
use jotunheim.Prelude.Bits.{bit_and_digit, bit_or_digit, bit_or-shift, bit_or-three}
use jotunheim.Simd.{Control, Cpuid, init, enable_fpu, cr4_with, cr4_osxsave, has}

-- The floating point unit is on: of CR0, the bits 1 and 5 are set, and 2 and 3 are not.
abbrev FpuOn : ℕ → Type 0
FpuOn cr0 = (cr0 / 2 % 2 ≡ 1) × (cr0 / 4 % 2 ≡ 0) × (cr0 / 8 % 2 ≡ 0) × (cr0 / 32 % 2 ≡ 1)

-- SSE is on: beside that, the bits 9 and 10 of CR4 are set.
abbrev pub SseOn : Control → Type 0
SseOn c = FpuOn c.cr0 × (c.cr4 / 2 ^ 9 % 4 ≡ 3)

cleared : (x : ℕ) → bit_and x 18446744073709551603 / 4 % 4 ≡ 0
cleared x = ground (
  arith,
  bit_and_digit x 18446744073709551603,
  bit_and_digit (x / 2) 9223372036854775801,
  bit_and_digit (x / 2 / 2) 4611686018427387900,
  bit_and_digit (x / 2 / 2 / 2) 2305843009213693950,
)

set-FpuOn : (x : ℕ) → x / 4 % 4 ≡ 0 → FpuOn (bit_or x 34)
set-FpuOn x h = ground (
  arith,
  bit_or_digit x 34,
  bit_or_digit (x / 2) 17,
  bit_or_digit (x / 2 / 2) 8,
  bit_or_digit (x / 2 / 2 / 2) 4,
  bit_or_digit (x / 2 / 2 / 2 / 2) 2,
  bit_or_digit (x / 2 / 2 / 2 / 2 / 2) 1,
)

enable_fpu-FpuOn : (c : Control) → FpuOn (enable_fpu c).cr0
enable_fpu-FpuOn c = set-FpuOn (bit_and c.cr0 18446744073709551603) (cleared c.cr0)

cr4_sse : (x : ℕ) → cr4_with false x / 2 ^ 9 % 4 ≡ 3
cr4_sse x = ground (arith, bit_or-shift 9 (x / 2 ^ 9) (x % 2 ^ 9) 3, bit_or-three (x / 2 ^ 9))

cr4_with-sse : (xsave : Bool) (x : ℕ) → cr4_with xsave x / 2 ^ 9 % 4 ≡ 3
cr4_with-sse false x = cr4_sse x
cr4_with-sse true x =
    let y = cr4_with false x in
    ground (arith, cr4_sse x, bit_or-shift 18 (y / 2 ^ 18) (y % 2 ^ 18) 1)

module _ (cpuid : Control → ℕ → ℕ → Cpuid) where
  pub init-SseOn : (c : Control) → SseOn (init cpuid c)
  unfolding init
  init-SseOn c =
      let ecx = (cpuid c 1 0).ecx in
      let cr4 = cr4_with (has (2 ^ 26) ecx && has (2 ^ 27) ecx) c.cr4 in
      let on : FpuOn (enable_fpu c).cr0 × (cr4 / 2 ^ 9 % 4 ≡ 3) =
        (enable_fpu-FpuOn c, cr4_with-sse (has (2 ^ 26) ecx && has (2 ^ 27) ecx) c.cr4) in
      elim (Bool-cases (has cr4_osxsave cr4)) [ inl e ↦ rw e on | inr e ↦ rw e on ]
