-- ===== src/Simd/Xsave.antt =====
-- Who enables XSAVE, and with which instructions a task's registers are saved.
use jotunheim.Prelude.{
  ℕ, ◌+◌, ◌-◌, ◌*◌, ◌/◌, ◌%◌, ◌^◌, ◌≡◌, refl, ap, ◌∙◌, Bool, true, false, ◌&&◌, Option, none, some,
  bit_and, arith, Bool-cases, Option-cases, inl, inr,
}
use jotunheim.Prelude.Bits.{bit_or-shift, bit_or-three, bit_and-shift}
use jotunheim.Simd.SseOn.{SseOn, init-SseOn}
use jotunheim.Simd.{
  Control, Cpuid, Machine, XSaveCaps, has, cr4_osxsave, cr4_with, init, enable_xsave_path,
  enable_sse_avx_boot, caps, simd_ready,
}
use jotunheim.Simd.Switch.{
  Instruction, xsaveopt, xsave, xrstor, fxsave, fxrstor, save, restore, save_with, restore_with,
}

-- The bits for SSE are not the bit for XSAVE.
has-cr4_with : (cr4 : ℕ) → has cr4_osxsave (cr4_with false cr4) ≡ has cr4_osxsave cr4
has-cr4_with cr4 = ground (
  arith,
  bit_or-shift 9 (cr4 / 2 ^ 9) (cr4 % 2 ^ 9) 3,
  bit_or-three (cr4 / 2 ^ 9),
  bit_and-shift 18 (cr4 / 2 ^ 18) (cr4 % 2 ^ 18) 1,
  bit_and-shift 18 (cr4 / 2 ^ 18)
      ((cr4 / 2 ^ 11 * 4 + 3) * 2 ^ 9 + cr4 % 2 ^ 9 - cr4 / 2 ^ 18 * 2 ^ 18) 1,
)

-- The instruction that brings back what another one has saved, with the same mask.
pub data Undoes : Instruction → Instruction → Type 0 where
  undoes_xsave : (lo hi : ℕ) → Undoes (xsave lo hi) (xrstor lo hi)
  undoes_xsaveopt : (lo hi : ℕ) → Undoes (xsaveopt lo hi) (xrstor lo hi)
  undoes_fxsave : Undoes fxsave fxrstor

and_false : (b : Bool) → b && false ≡ false
and_false true = refl
and_false false = refl

module _ (cpuid : Control → ℕ → ℕ → Cpuid) where
  -- Bit 27 of `ecx` in leaf 1 tells whether the operating system has set `CR4.OSXSAVE`.
  abbrev pub OsxsaveLaw : Type 0
  OsxsaveLaw = (c : Control) → has (2 ^ 27) (cpuid c 1 0).ecx ≡ has cr4_osxsave c.cr4

  -- The kernel and the boot loader make the same changes to the control registers, whichever routine
  -- runs: `init`, `enable_xsave_path` and `enable_sse_avx_boot`. The last two also agree on what they
  -- record, where the kernel has no record yet. With each of them the floating point unit and SSE are
  -- on, and no trap is left to the first use: the bits of CR0 and CR4 say so.
  pub enable_equivalent :
      (m : Machine)
      → m.caps_static ≡ none
      → SseOn (init cpuid m.control)
        × ((enable_xsave_path cpuid m).control ≡ init cpuid m.control)
        × ((enable_sse_avx_boot cpuid m.control).1 ≡ init cpuid m.control)
        × ((c : XSaveCaps) × ((enable_xsave_path cpuid m).caps_static ≡ some c)
            × (let b = (enable_sse_avx_boot cpuid m.control).0 in
                (c.has_xsave ≡ b.has_xsave)
                × (c.has_osxsave ≡ b.has_osxsave)
                × (c.has_avx ≡ b.has_avx)
                × (c.has_xsaveopt ≡ b.has_xsaveopt)
                × (c.xcr0 ≡ b.xcr0)
                × (c.xsave_size ≡ b.xsave_size)))
  unfolding init enable_xsave_path enable_sse_avx_boot
  enable_equivalent m empty =
      rw empty
        (init-SseOn cpuid m.control, refl, refl, (_, refl, (refl, refl, refl, refl, refl, refl)))

  made :
      (m : Machine)
      → m.caps_static ≡ none
      → (c : XSaveCaps) × ((enable_xsave_path cpuid m).caps_static ≡ some c)
        × (c.has_osxsave ≡ has (2 ^ 27) (cpuid m.control 1 0).ecx)
  unfolding enable_xsave_path
  made m empty = rw empty (_, refl, refl)

  known-fxsave :
      (m : Machine) (c : XSaveCaps)
      → m.caps_static ≡ some c
      → c.has_osxsave ≡ false
      → (save cpuid m ≡ (some fxsave, m)) × (restore cpuid m ≡ (some fxrstor, m))
  unfolding save restore caps
  known-fxsave m c e off =
      let dead : c.has_xsave && c.has_osxsave ≡ false = rw off (and_false c.has_xsave) in
      (rw (e, dead) refl, rw (e, dead) refl)

  -- Where `cpuid` tells, as documented, whether `CR4.OSXSAVE` is set, and neither the bit nor a record
  -- is there before, `enable_xsave_path` does not set the bit and does not write XCR0; and with the
  -- record that it leaves, `save` runs FXSAVE and `restore` FXRSTOR.
  pub enable_xsave_path-fxsave :
      (m : Machine)
      → OsxsaveLaw
      → m.caps_static ≡ none
      → has cr4_osxsave m.control.cr4 ≡ false
      → let m' = enable_xsave_path cpuid m in
        (has cr4_osxsave m'.control.cr4 ≡ false)
        × (m'.control.xcr0 ≡ m.control.xcr0)
        × (save cpuid m' ≡ (some fxsave, m'))
        × (restore cpuid m' ≡ (some fxrstor, m'))
  unfolding enable_xsave_path
  enable_xsave_path-fxsave m law empty off =
      let ox : has (2 ^ 27) (cpuid m.control 1 0).ecx ≡ false = law m.control ∙ off in
      let dead : has (2 ^ 26) (cpuid m.control 1 0).ecx && has (2 ^ 27) (cpuid m.control 1 0).ecx
          ≡ false =
        rw ox (and_false (has (2 ^ 26) (cpuid m.control 1 0).ecx)) in
      let still : has cr4_osxsave (cr4_with false m.control.cr4) ≡ false =
        has-cr4_with m.control.cr4 ∙ off in
      let (c, at, same) = made m empty in
      let known = known-fxsave (enable_xsave_path cpuid m) c at (same ∙ ox) in
      (rw (dead, still) still, rw (dead, still) refl, known.0, known.1)

  caps-none :
      (m : Machine)
      → m.caps_static ≡ none
      → caps cpuid m ≡ ((enable_xsave_path cpuid m).caps_static, enable_xsave_path cpuid m)
  unfolding caps
  caps-none m e =
      ap
        (λ (o : Option XSaveCaps). elim o [
          | some c ↦ (some c, m)
          | none ↦ ((enable_xsave_path cpuid m).caps_static, enable_xsave_path cpuid m)
        ])
        e

  caps-some : (m : Machine) (c : XSaveCaps) → m.caps_static ≡ some c → caps cpuid m ≡ (some c, m)
  unfolding caps
  caps-some m c e =
      ap
        (λ (o : Option XSaveCaps). elim o [
          | some c ↦ (some c, m)
          | none ↦ ((enable_xsave_path cpuid m).caps_static, enable_xsave_path cpuid m)
        ])
        e

  caps-known :
      (m : Machine)
      → (c : XSaveCaps) × (m' : Machine) × (caps cpuid m ≡ (some c, m'))
        × (caps cpuid m' ≡ (some c, m'))
  caps-known m = elim (Option-cases m.caps_static) [
    | inr (c, e) ↦ (c, m, caps-some m c e, caps-some m c e)
    | inl empty ↦
        let (c, at, same) = made m empty in
        (
          c,
          enable_xsave_path cpuid m,
          caps-none m empty ∙ ap (λ (o : Option XSaveCaps). (o, enable_xsave_path cpuid m)) at,
          caps-some (enable_xsave_path cpuid m) c at,
        )
  ]

  with_record :
      (c : XSaveCaps) (m : Machine)
      → (i : Instruction) × (j : Instruction) × (save_with cpuid (some c, m) ≡ (some i, m))
        × (restore_with cpuid (some c, m) ≡ (some j, m))
        × Undoes i j
  with_record c m = elim (Bool-cases (c.has_xsave && c.has_osxsave && simd_ready cpuid m)) [
    | inr legacy ↦ (fxsave, fxrstor, rw legacy refl, rw legacy refl, undoes_fxsave)
    | inl full ↦
        let lo = bit_and c.xcr0 0xffffffff in
        let hi = c.xcr0 / 2 ^ 32 in
        elim (Bool-cases c.has_xsaveopt) [
          | inl opt ↦ (
            xsaveopt lo hi,
            xrstor lo hi,
            rw (full, opt) refl,
            rw full refl,
            undoes_xsaveopt lo hi,
          )
          | inr plain ↦
              (xsave lo hi, xrstor lo hi, rw (full, plain) refl, rw full refl, undoes_xsave lo hi)
        ]
  ]

  -- On every machine `save` and the `restore` after it each run one instruction, and the second undoes
  -- the first: the same format of the area, with the same mask.
  pub restore-save :
      (m : Machine)
      → (i : Instruction) × (j : Instruction) × (m' : Machine) × (save cpuid m ≡ (some i, m'))
        × (restore cpuid m' ≡ (some j, m'))
        × Undoes i j
  unfolding save restore
  restore-save m =
      let (c, m', first, again) = caps-known m in
      let (i, j, saves, restores, undoes) = with_record c m' in
      (
        i,
        j,
        m',
        ap (save_with cpuid) first ∙ saves,
        ap (restore_with cpuid) again ∙ restores,
        undoes,
      )
