-- ===== src/Simd.antt =====
-- The vector unit: jotunheimkernel/src/arch/x86_64/simd/mod.rs, simd/caps.rs beside it, and
-- jotunboot/src/simd.rs. The processor is its control registers, and `cpuid`, what the instruction
-- answers under them for a leaf and a subleaf.
pub mod SseOn
pub mod Switch
pub mod Xsave
mod Examples
use jotunheim.Prelude.{
  ℕ, zero, suc, ◌+◌, ◌-◌, ◌*◌, ◌/◌, ◌%◌, ◌^◌, Bool, true, false, not, ◌&&◌, Option, none, some,
  ◌==◌, if◌then◌else◌, bit_and, bit_or,
}
use jotunheim.Prelude.Words.{not64}

pub record Control : Type 0 where
  pub cr0 : ℕ
  pub cr4 : ℕ
  pub xcr0 : ℕ

pub record Cpuid : Type 0 where
  pub eax : ℕ
  pub ebx : ℕ
  pub ecx : ℕ
  pub edx : ℕ

abbrev pub cr0_em : ℕ
cr0_em = 2 ^ 2

abbrev pub cr0_ts : ℕ
cr0_ts = 2 ^ 3

abbrev pub cr0_mp : ℕ
cr0_mp = 2 ^ 1

abbrev pub cr0_ne : ℕ
cr0_ne = 2 ^ 5

abbrev pub cr4_osfxsr : ℕ
cr4_osfxsr = 2 ^ 9

abbrev pub cr4_osxmmexcpt : ℕ
cr4_osxmmexcpt = 2 ^ 10

abbrev pub cr4_osxsave : ℕ
cr4_osxsave = 2 ^ 18

-- The bits of XCR0: x87, SSE and the upper halves of the AVX registers.
abbrev pub x87 : ℕ
x87 = 1

abbrev pub sse : ℕ
sse = 2

abbrev pub ymm : ℕ
ymm = 4

-- `(x & mask) != 0`
abbrev pub has : ℕ → ℕ → Bool
has mask x = not (bit_and x mask == 0)

pub record XSaveCaps : Type 0 where
  pub has_xsave : Bool
  pub has_osxsave : Bool
  pub has_avx : Bool
  pub has_xsaveopt : Bool
  pub xcr0_mask_supported : ℕ
  pub xsave_size : ℕ
  pub xcr0 : ℕ

pub record SimdCaps : Type 0 where
  pub has_xsave : Bool
  pub has_osxsave : Bool
  pub has_avx : Bool
  pub has_xsaveopt : Bool
  pub xcr0 : ℕ
  pub xsave_size : ℕ

-- The kernel's statics `CAPS` and `READY`, with the processor.
pub record Machine : Type 0 where
  pub control : Control
  pub caps_static : Option XSaveCaps
  pub ready : ℕ

-- `if size & 63 != 0 { size = (size + 63) & !63 }`
abbrev pub align_64 : ℕ → ℕ
align_64 size = if has 63 size then bit_and (size + 63) (not64 63) else size

-- `cr0 &= !(CR0_EM | CR0_TS); cr0 |= CR0_MP | CR0_NE`
abbrev pub enable_fpu : Control → Control
enable_fpu c = record c {
  cr0 = bit_or (bit_and c.cr0 (not64 (bit_or cr0_em cr0_ts))) (bit_or cr0_mp cr0_ne);
}

-- CR4 with the SSE bits, and `OSXSAVE` where both feature bits are set.
abbrev pub cr4_with : Bool → ℕ → ℕ
cr4_with xsave cr4 =
    let cr4' = bit_or cr4 (bit_or cr4_osfxsr cr4_osxmmexcpt) in
    if xsave then bit_or cr4' cr4_osxsave else cr4'

-- The mask of EDX and EAX together.
abbrev pub wide : Cpuid → ℕ
wide d = bit_or d.eax (d.edx * 2 ^ 32)

abbrev pub wanted_xcr0 : Bool → ℕ → ℕ
wanted_xcr0 has_avx supported =
    let basic =
      if bit_and supported (bit_or x87 sse) == bit_or x87 sse
      then bit_or 0 (bit_or x87 sse)
      else 0 in
    if has_avx && has ymm supported then bit_or basic ymm else basic

-- The same steps as `caps::enable_xsave_path` has them.
abbrev pub enable_fpu_caps : Control → Control
enable_fpu_caps c = record c {
  cr0 = bit_or (bit_and c.cr0 (not64 (bit_or cr0_em cr0_ts))) (bit_or cr0_mp cr0_ne);
}

abbrev pub cr4_with_caps : Bool → ℕ → ℕ
cr4_with_caps xsave cr4 =
    let cr4' = bit_or cr4 (bit_or cr4_osfxsr cr4_osxmmexcpt) in
    if xsave then bit_or cr4' cr4_osxsave else cr4'

abbrev pub wanted_xcr0_caps : Bool → ℕ → ℕ
wanted_xcr0_caps has_avx supported =
    let basic =
      if bit_and supported (bit_or x87 sse) == bit_or x87 sse
      then bit_or 0 (bit_or x87 sse)
      else 0 in
    if has_avx && has ymm supported then bit_or basic ymm else basic

-- And as the boot loader has them.
abbrev pub align_64_boot : ℕ → ℕ
align_64_boot size = if has 63 size then bit_and (size + 63) (not64 63) else size

abbrev pub enable_fpu_boot : Control → Control
enable_fpu_boot c = record c {
  cr0 = bit_or (bit_and c.cr0 (not64 (bit_or cr0_em cr0_ts))) (bit_or cr0_mp cr0_ne);
}

abbrev pub cr4_with_boot : Bool → ℕ → ℕ
cr4_with_boot xsave cr4 =
    let cr4' = bit_or cr4 (bit_or cr4_osfxsr cr4_osxmmexcpt) in
    if xsave then bit_or cr4' cr4_osxsave else cr4'

abbrev pub wanted_xcr0_boot : Bool → ℕ → ℕ
wanted_xcr0_boot has_avx supported =
    let basic =
      if bit_and supported (bit_or x87 sse) == bit_or x87 sse
      then bit_or 0 (bit_or x87 sse)
      else 0 in
    if has_avx && has ymm supported then bit_or basic ymm else basic

module _ (cpuid : Control → ℕ → ℕ → Cpuid) where
  -- `simd::init`
  unfoldable pub init : Control → Control
  init c₀ =
      let ecx1 = (cpuid c₀ 1 0).ecx in
      let has_xsave = has (2 ^ 26) ecx1 in
      let has_osxsave = has (2 ^ 27) ecx1 in
      let has_avx = has (2 ^ 28) ecx1 in
      let c₁ = enable_fpu c₀ in
      let cr4 = cr4_with (has_xsave && has_osxsave) c₁.cr4 in
      let c₂ = record c₁ { cr4 = cr4 } in
      let xcr0 = wanted_xcr0 has_avx (wide (cpuid c₂ 0xD 0)) in
      if has cr4_osxsave cr4 then record c₂ { xcr0 = xcr0 } else c₂

  -- `caps::enable_xsave_path`: a record that is there already stays.
  unfoldable pub enable_xsave_path : Machine → Machine
  enable_xsave_path m =
      let c₀ = m.control in
      let ecx = (cpuid c₀ 1 0).ecx in
      let has_xsave = has (2 ^ 26) ecx in
      let has_osxsave = has (2 ^ 27) ecx in
      let has_avx = has (2 ^ 28) ecx in
      let has_xsaveopt = has 1 (cpuid c₀ 0xD 1).eax in
      let c₁ = enable_fpu_caps c₀ in
      let c₂ = record c₁ { cr4 = cr4_with_caps (has_xsave && has_osxsave) c₁.cr4 } in
      let supported_mask = wide (cpuid c₂ 0xD 0) in
      let xcr0 = wanted_xcr0_caps has_avx supported_mask in
      let on = has cr4_osxsave c₂.cr4 in
      let c₃ = if on then record c₂ { xcr0 = xcr0 } else c₂ in
      let caps_val : XSaveCaps = record {
        has_xsave = has_xsave;
        has_osxsave = has_osxsave;
        has_avx = has_avx;
        has_xsaveopt = has_xsaveopt;
        xcr0_mask_supported = supported_mask;
        xsave_size = align_64 (cpuid c₃ 0xD 0).ebx;
        xcr0 = if on then xcr0 else bit_or x87 sse;
      } in
      record {
        control = c₃;
        ready = 1;
        caps_static = elim m.caps_static [ none ↦ some caps_val | some old ↦ some old ];
      }

  -- `enable_sse_avx_boot` of the boot loader
  unfoldable pub enable_sse_avx_boot : Control → SimdCaps × Control
  enable_sse_avx_boot c₀ =
      let ecx = (cpuid c₀ 1 0).ecx in
      let has_xsave = has (2 ^ 26) ecx in
      let has_osxsave = has (2 ^ 27) ecx in
      let has_avx = has (2 ^ 28) ecx in
      let has_xsaveopt = has 1 (cpuid c₀ 0xD 1).eax in
      let c₁ = enable_fpu_boot c₀ in
      let c₂ = record c₁ { cr4 = cr4_with_boot (has_xsave && has_osxsave) c₁.cr4 } in
      let xcr0 = wanted_xcr0_boot has_avx (wide (cpuid c₂ 0xD 0)) in
      let on = has cr4_osxsave c₂.cr4 in
      let c₃ = if on then record c₂ { xcr0 = xcr0 } else c₂ in
      (
        record {
          has_xsave = has_xsave;
          has_osxsave = has_osxsave;
          has_avx = has_avx;
          has_xsaveopt = has_xsaveopt;
          xcr0 = if on then xcr0 else bit_or x87 sse;
          xsave_size = align_64_boot (cpuid c₃ 0xD 0).ebx;
        },
        c₃,
      )

  abbrev pub simd_ready : Machine → Bool
  simd_ready m = not (m.ready == 0)

  -- `caps::caps`: the record, made at the first call.
  unfoldable pub caps : Machine → Option XSaveCaps × Machine
  caps m = elim m.caps_static [
    | some c ↦ (some c, m)
    | none ↦ (let m' = enable_xsave_path m in (m'.caps_static, m'))
  ]
