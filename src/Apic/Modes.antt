-- ===== src/Apic/Modes.antt =====
-- How the controller's mode is chosen, on the first processor and on the others.
use jotunheim.Prelude.{
  ℕ, ◌-◌, ◌/◌, ◌%◌, ◌^◌, ◌≡◌, refl, Bool, true, false, not, ◌==◌, arith, if◌then◌else◌, bit_and,
  bit_or,
}
use jotunheim.Prelude.Bits.{
  bit_or-shift, bit_or-one, bit_and-shift, bit_and-low, bit_and-fields, bit_and-zero,
}
use jotunheim.Prelude.Words.{not64}
use jotunheim.Apic.{Apic, x2apic, xapic, enabled, is_x2, early_init, paging, ap_init}

-- Bit 10 as a digit.
is_x2-digit : (b : ℕ) → is_x2 b ≡ not (b / 2 ^ 10 % 2 == 0)
is_x2-digit b = ground (
  arith,
  bit_and-shift 10 (b / 2 ^ 10) (b % 2 ^ 10) 1,
  bit_and-low 1 (b / 2 ^ 10 / 2) (b / 2 ^ 10 % 2),
)

is_x2-set : (b : ℕ) → is_x2 (bit_or b (2 ^ 10)) ≡ true
is_x2-set b = ground (
  arith,
  is_x2-digit (bit_or b (2 ^ 10)),
  bit_or-shift 10 (b / 2 ^ 10) (b % 2 ^ 10) 1,
  bit_or-one (b / 2 ^ 10),
)

is_x2-cleared : (b : ℕ) → is_x2 (bit_and b (not64 (2 ^ 10))) ≡ false
is_x2-cleared b = ground (
  arith,
  is_x2-digit (bit_and b (not64 (2 ^ 10))),
  bit_and-fields 10 (b / 2 ^ 10) (b % 2 ^ 10) (2 ^ 54 - 2) (2 ^ 10 - 1),
  bit_and-low 10 0 (b % 2 ^ 10),
  bit_and-fields 1 (b / 2 ^ 11) (b / 2 ^ 10 % 2) (2 ^ 53 - 1) 0,
  bit_and-zero (b / 2 ^ 10 % 2),
)

is_x2-enabled : (x2 : Bool) (b : ℕ) → is_x2 (enabled x2 b) ≡ x2
is_x2-enabled true b = is_x2-set (bit_or b (2 ^ 11))
is_x2-enabled false b = is_x2-cleared (bit_or b (2 ^ 11))

-- The first processor, which goes through `early_init` and then `paging`, and the others, which call
-- `ap_init`, come to the same register, mode and base: x2APIC exactly where the processor has it, and
-- otherwise the registers in memory, mapped.
pub ap_init-paging :
    (x2 : Bool) (hhdm : ℕ) (a : Apic)
    → (paging hhdm (early_init x2 a) ≡ ap_init x2 hhdm a)
      × ((ap_init x2 hhdm a).mode ≡ (if x2 then x2apic else xapic))
unfolding early_init paging ap_init
ap_init-paging true hhdm a = rw (is_x2-enabled true a.base_msr) (refl, refl)
ap_init-paging false hhdm a = rw (is_x2-enabled false a.base_msr) (refl, refl)
