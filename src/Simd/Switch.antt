-- ===== src/Simd/Switch.antt =====
-- The registers of a task saved and brought back: `save` and `restore` of
-- jotunheimkernel/src/arch/x86_64/simd/mod.rs.
use jotunheim.Prelude.{ℕ, ◌/◌, ◌^◌, ◌&&◌, Option, none, some, if◌then◌else◌, bit_and}
use jotunheim.Simd.{Control, Cpuid, XSaveCaps, Machine, simd_ready, caps}

-- The instruction that saves or restores a task's registers, with the mask in EDX:EAX.
pub data Instruction : Type 0 where
  xsaveopt xsave xrstor : (lo hi : ℕ) → Instruction
  fxsave fxrstor : Instruction

module _ (cpuid : Control → ℕ → ℕ → Cpuid) where
  -- `save` and `restore` once the record is there; `none`: there is no record.
  abbrev pub save_with : Option XSaveCaps × Machine → Option Instruction × Machine
  save_with (none, m) = (none, m)
  save_with (some c, m) =
      let mask_lo = bit_and c.xcr0 0xffffffff in
      let mask_hi = c.xcr0 / 2 ^ 32 in
      let full = if c.has_xsaveopt then xsaveopt mask_lo mask_hi else xsave mask_lo mask_hi in
      (some (if c.has_xsave && c.has_osxsave && simd_ready cpuid m then full else fxsave), m)

  abbrev pub restore_with : Option XSaveCaps × Machine → Option Instruction × Machine
  restore_with (none, m) = (none, m)
  restore_with (some c, m) =
      let mask_lo = bit_and c.xcr0 0xffffffff in
      let mask_hi = c.xcr0 / 2 ^ 32 in
      (
        some (
            if c.has_xsave && c.has_osxsave && simd_ready cpuid m
            then xrstor mask_lo mask_hi
            else fxrstor),
        m,
      )

  unfoldable pub save : Machine → Option Instruction × Machine
  save m = save_with (caps cpuid m)

  unfoldable pub restore : Machine → Option Instruction × Machine
  restore m = restore_with (caps cpuid m)
