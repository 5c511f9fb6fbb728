-- ===== src/Apic.antt =====
-- The local interrupt controller: jotunheimkernel/src/arch/x86_64/apic.rs. What the code does to the
-- hardware is a list of accesses, the first one first. `IA32_APIC_BASE` is part of the state, as the
-- code reads it back; `x2` is what `cpuid` says of x2APIC.
pub mod Commands
pub mod Modes
mod Examples
use jotunheim.Prelude.{
  ℕ, zero, suc, ◌+◌, ◌-◌, ◌*◌, ◌/◌, ◌%◌, ◌^◌, Bool, true, false, not, List, [], ◌∷◌, ◌++◌, ◌==◌,
  ltb, if◌then◌else◌, bit_and, bit_or,
}
use jotunheim.Prelude.Words.{add64, not64}

abbrev pub msr_apic_base : ℕ
msr_apic_base = 0x1b

abbrev pub msr_x2apic_apicid : ℕ
msr_x2apic_apicid = 0x802

abbrev pub msr_x2apic_tpr : ℕ
msr_x2apic_tpr = 0x808

abbrev pub msr_x2apic_eoi : ℕ
msr_x2apic_eoi = 0x80b

abbrev pub msr_x2apic_sivr : ℕ
msr_x2apic_sivr = 0x80f

abbrev pub msr_x2apic_icr : ℕ
msr_x2apic_icr = 0x830

abbrev pub msr_x2apic_lvt_timer : ℕ
msr_x2apic_lvt_timer = 0x832

abbrev pub msr_x2apic_init_count : ℕ
msr_x2apic_init_count = 0x838

-- Offsets in double words.
abbrev pub lapic_id_off : ℕ
lapic_id_off = 0x20 / 4

abbrev pub lapic_tpr_off : ℕ
lapic_tpr_off = 0x80 / 4

abbrev pub lapic_eoi_off : ℕ
lapic_eoi_off = 0xb0 / 4

abbrev pub lapic_sivr_off : ℕ
lapic_sivr_off = 0xf0 / 4

abbrev pub lapic_icrlo : ℕ
lapic_icrlo = 0x300 / 4

abbrev pub lapic_icrhi : ℕ
lapic_icrhi = 0x310 / 4

abbrev pub lapic_lvt_tmr : ℕ
lapic_lvt_tmr = 0x320 / 4

abbrev pub lapic_initcnt : ℕ
lapic_initcnt = 0x380 / 4

abbrev pub lapic_dcr : ℕ
lapic_dcr = 0x3e0 / 4

abbrev pub timer_vector : ℕ
timer_vector = 0x40

-- What `MODE` stores: the addresses of the source's `Mode` are worked out again at each load.
pub data Mode : Type 0 where
  unknown x2apic xapic_phys xapic : Mode

pub record Apic : Type 0 where
  pub base_msr : ℕ
  pub mode : Mode
  pub hhdm_base : ℕ

pub data Access : Type 0 where
  write_msr write_at : ℕ → ℕ → Access
  -- Reading until bit 12 of the register is clear.
  wait_msr wait_at : ℕ → Access

-- `rdmsr(MSR_IA32_APIC_BASE) & APIC_PHYS_MASK`, and where it is mapped.
abbrev pub phys : Apic → ℕ
phys a = bit_and a.base_msr 0xfffff000

abbrev pub mmio_base : Apic → ℕ
mmio_base a = add64 a.hhdm_base (phys a)

-- `base.add(off)` on double words
abbrev pub register : Apic → ℕ → ℕ
register a off = mmio_base a + 4 * off

-- `base |= 1 << 11`, and bit 10 set or cleared
abbrev pub enabled : Bool → ℕ → ℕ
enabled x2 base =
    let on = bit_or base (2 ^ 11) in if x2 then bit_or on (2 ^ 10) else bit_and on (not64 (2 ^ 10))

abbrev pub is_x2 : ℕ → Bool
is_x2 base = not (bit_and base (2 ^ 10) == 0)

unfoldable pub early_init : Bool → Apic → Apic
early_init x2 a =
    let base = enabled x2 a.base_msr in
    record a { base_msr = base; mode = if is_x2 base then x2apic else xapic_phys }

unfoldable pub paging : ℕ → Apic → Apic
paging hhdm a = record a {
  hhdm_base = hhdm;
  mode = elim a.mode [ xapic_phys ↦ xapic | unknown ↦ unknown | x2apic ↦ x2apic | xapic ↦ xapic ];
}

unfoldable pub ap_init : Bool → ℕ → Apic → Apic
ap_init x2 hhdm a =
    let base = enabled x2 a.base_msr in
    record { base_msr = base; hhdm_base = hhdm; mode = if is_x2 base then x2apic else xapic }

-- `lapic_id`: the identity and the state, from what the registers hold.
unfoldable pub lapic_id : (rdmsr read : ℕ → ℕ) → Bool → Apic → ℕ × Apic
lapic_id rdmsr read x2 a =
    let new_base = enabled x2 a.base_msr in
    let a' =
      if new_base == a.base_msr
      then a
      else record a { base_msr = new_base; mode = if is_x2 new_base then x2apic else a.mode } in
    let mapped = read (register a' lapic_id_off) / 2 ^ 24 in
    (
      elim a'.mode [
        | x2apic ↦ rdmsr msr_x2apic_apicid % 2 ^ 32
        | xapic ↦ mapped
        | xapic_phys ↦ mapped
        | unknown ↦ mapped
      ],
      a',
    )

unfoldable pub open_all_irqs : Apic → List Access
open_all_irqs a = elim a.mode [
  | x2apic ↦ write_msr msr_x2apic_tpr 0 ∷ []
  | xapic ↦ write_at (register a lapic_tpr_off) 0 ∷ []
  | xapic_phys ↦ []
  | unknown ↦ []
]

-- One register that has an MSR and a place in memory; without a mode, the place in memory.
abbrev pub write_either : (msr off val : ℕ) → Apic → List Access
write_either msr off val a = elim a.mode [
  | x2apic ↦ write_msr msr val ∷ []
  | xapic ↦ write_at (register a off) val ∷ []
  | xapic_phys ↦ write_at (register a off) val ∷ []
  | unknown ↦ write_at (register a off) val ∷ []
]

unfoldable pub set_svr : ℕ → Bool → Apic → List Access
set_svr vector enable =
    write_either msr_x2apic_sivr lapic_sivr_off (bit_or vector (if enable then 2 ^ 8 else 0))

unfoldable pub eoi : Apic → List Access
eoi = write_either msr_x2apic_eoi lapic_eoi_off 0

-- The two halves of the command register in memory, the high one first; the shift is on 32 bits.
abbrev pub write_icr : (dest lo : ℕ) → Apic → List Access
write_icr dest lo a =
    write_at (register a lapic_icrhi) (dest * 2 ^ 24 % 2 ^ 32)
    ∷ write_at (register a lapic_icrlo) lo
    ∷ []

abbrev pub write_icr_x2 : (dest lo : ℕ) → List Access
write_icr_x2 dest lo = write_msr msr_x2apic_icr (bit_or (dest * 2 ^ 32) lo) ∷ []

-- The waits of `icr_wait` and of the fallback.
abbrev pub wait_icr : Apic → List Access
wait_icr a = wait_at (register a lapic_icrlo) ∷ []

abbrev pub wait_icr_x2 : List Access
wait_icr_x2 = wait_msr msr_x2apic_icr ∷ []

unfoldable pub ipi_fixed : ℕ → ℕ → Apic → List Access
ipi_fixed dest vector a = elim a.mode [
  | x2apic ↦ write_icr_x2 dest (bit_or (0 * 2 ^ 8) vector)
  | xapic ↦ write_icr dest (bit_or (0 * 2 ^ 8) vector) a
  | xapic_phys ↦ write_icr dest (bit_or (0 * 2 ^ 8) vector) a
  | unknown ↦ write_icr dest (bit_or (0 * 2 ^ 8) vector) a
]

unfoldable pub start_timer_hz : ℕ → Apic → List Access
start_timer_hz hz a =
    let init = if hz == 0 then 100000 else 10000000 / (if ltb hz 1 then 1 else hz) in
    let lvt = bit_or (2 ^ 17) timer_vector in
    elim a.mode [
      | x2apic ↦ write_msr msr_x2apic_lvt_timer lvt ∷ write_msr msr_x2apic_init_count init ∷ []
      | xapic ↦
          write_at (register a lapic_dcr) 11
          ∷ write_at (register a lapic_lvt_tmr) lvt
          ∷ write_at (register a lapic_initcnt) init
          ∷ []
      | xapic_phys ↦ []
      | unknown ↦ []
    ]

-- INIT, level and asserted, and the same without the level.
abbrev pub lo_assert : ℕ
lo_assert = bit_or (bit_or (5 * 2 ^ 8) (2 ^ 15)) (2 ^ 14)

abbrev pub lo_deassert : ℕ
lo_deassert = bit_or (5 * 2 ^ 8) (2 ^ 15)

abbrev pub init_at : ℕ → Apic → List Access
init_at dest a =
    write_icr dest lo_assert a ++ wait_icr a ++ write_icr dest lo_deassert a ++ wait_icr a

unfoldable pub send_init : ℕ → Apic → List Access
send_init dest a = elim a.mode [
  | x2apic ↦
      write_icr_x2 dest lo_assert ++ wait_icr_x2 ++ write_icr_x2 dest lo_deassert ++ wait_icr_x2
  | xapic ↦ init_at dest a
  | xapic_phys ↦ init_at dest a
  | unknown ↦ init_at dest a
]

abbrev pub startup_at : ℕ → ℕ → Apic → List Access
startup_at dest vec a = write_icr dest (bit_or vec (6 * 2 ^ 8)) a ++ wait_icr a

unfoldable pub send_startup : ℕ → ℕ → Apic → List Access
send_startup dest vector a =
    let vec = bit_and vector 0xff in
    elim a.mode [
      | x2apic ↦ write_icr_x2 dest (bit_or vec (6 * 2 ^ 8)) ++ wait_icr_x2
      | xapic ↦ startup_at dest vec a
      | xapic_phys ↦ startup_at dest vec a
      | unknown ↦ startup_at dest vec a
    ]
