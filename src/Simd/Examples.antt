-- ===== src/Simd/Examples.antt =====
-- Runs of the vector unit's routines on a processor with AVX.
use jotunheim.Prelude.{ℕ, ◌≡◌, refl, Bool, true, false, none, some, if◌then◌else◌}
use jotunheim.Simd.{
  Control, Cpuid, Machine, XSaveCaps, has, cr4_osxsave, init, enable_xsave_path,
  enable_sse_avx_boot,
}
use jotunheim.Simd.Switch.{Instruction, fxsave, fxrstor, save, restore}
use jotunheim.Simd.SseOn.{SseOn}
use jotunheim.Simd.Xsave.{
  OsxsaveLaw, enable_equivalent, enable_xsave_path-fxsave, Undoes, restore-save,
}

-- XSAVE, AVX and XSAVEOPT are there; whether the system uses XSAVE is read from CR4.
abbrev answer : Control → ℕ → ℕ → Cpuid
answer c leaf sub = record {
  eax = 7;
  ebx = 832;
  ecx = if has cr4_osxsave c.cr4 then 0x1c000000 else 0x14000000;
  edx = 0;
}

answer-OsxsaveLaw : OsxsaveLaw answer
answer-OsxsaveLaw c = by_bit (has cr4_osxsave c.cr4)
  where
    by_bit : (b : Bool) → has 0x8000000 (if b then 0x1c000000 else 0x14000000) ≡ b
    by_bit true = refl
    by_bit false = refl

abbrev reset : Machine
reset = record {
  control = record { cr0 = 0x80000011; cr4 = 0x20; xcr0 = 1 };
  caps_static = none;
  ready = 0;
}

-- With the bit set in advance XCR0 is written.
init_sets : (init answer (record { cr0 = 0x80000011; cr4 = 0x40020; xcr0 = 1 })).xcr0 ≡ 7
unfolding init
init_sets = refl

enable_equivalent_example :
    SseOn (init answer reset.control)
    × ((enable_xsave_path answer reset).control ≡ init answer reset.control)
    × ((enable_sse_avx_boot answer reset.control).1 ≡ init answer reset.control)
    × ((c : XSaveCaps) × ((enable_xsave_path answer reset).caps_static ≡ some c)
        × (let b = (enable_sse_avx_boot answer reset.control).0 in
            (c.has_xsave ≡ b.has_xsave)
            × (c.has_osxsave ≡ b.has_osxsave)
            × (c.has_avx ≡ b.has_avx)
            × (c.has_xsaveopt ≡ b.has_xsaveopt)
            × (c.xcr0 ≡ b.xcr0)
            × (c.xsave_size ≡ b.xsave_size)))
enable_equivalent_example = enable_equivalent answer reset refl

enable_xsave_path-fxsave_example :
    let m' = enable_xsave_path answer reset in
    (has cr4_osxsave m'.control.cr4 ≡ false)
    × (m'.control.xcr0 ≡ reset.control.xcr0)
    × (save answer m' ≡ (some fxsave, m'))
    × (restore answer m' ≡ (some fxrstor, m'))
enable_xsave_path-fxsave_example = enable_xsave_path-fxsave answer reset answer-OsxsaveLaw refl refl

restore-save_example :
    (i : Instruction) × (j : Instruction) × (m' : Machine) × (save answer reset ≡ (some i, m'))
    × (restore answer m' ≡ (some j, m'))
    × Undoes i j
restore-save_example = restore-save answer reset
