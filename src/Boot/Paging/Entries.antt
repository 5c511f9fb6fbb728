-- ===== src/Boot/Paging/Entries.antt =====
-- Page table entries as arithmetic: the flags, the address and the indices that the masks select.
use jotunheim.Prelude.{ℕ, ◌+◌, ◌-◌, ◌*◌, ◌/◌, ◌%◌, ◌^◌, ◌<◌, ◌≡◌, true, false, arith, bit_and}
use jotunheim.Prelude.Bits.{bit_and-low, bit_and-shift, bit_or-add, bit_or-shift, bit_or-one}
use jotunheim.Boot.Paging.{pte_p, pte_ps, is_present, is_huge, address, entry_of}

pub bit_and_index : (x : ℕ) → bit_and x 0x1ff ≡ x % 512
bit_and_index x = ground (arith, bit_and-low 9 (x / 512) (x % 512))

pub bit_and_p : (e : ℕ) → bit_and e pte_p ≡ e % 2
bit_and_p e = ground (arith, bit_and-low 1 (e / 2) (e % 2))

pub bit_and_ps : (e : ℕ) → bit_and e pte_ps ≡ e / 128 % 2 * 128
bit_and_ps e =
    ground (arith, bit_and-shift 7 (e / 128) (e % 128) 1, bit_and-low 1 (e / 128 / 2) (e / 128 % 2))

pub bit_and_address : (e : ℕ) → address e ≡ e / 4096 % 2 ^ 40 * 4096
bit_and_address e = ground (
  arith,
  bit_and-shift 12 (e / 4096) (e % 4096) (2 ^ 40 - 1),
  bit_and-low 40 (e / 4096 / 2 ^ 40) (e / 4096 % 2 ^ 40),
)

-- The address of a page, as the entries hold it.
abbrev pub IsPage : ℕ → Type 0
IsPage p = (p % 4096 ≡ 0) × (p < 2 ^ 52)

pub entry_of-add : (phys : ℕ) → IsPage phys → entry_of phys ≡ phys + 3
entry_of-add phys h =
    ground
      (arith, bit_or-add 12 (phys / 4096) 1, bit_or-shift 1 (phys / 2) 1 1, bit_or-one (phys / 2))

pub entry_of-present : (phys : ℕ) → IsPage phys → is_present (entry_of phys) ≡ true
entry_of-present phys h = ground (arith, entry_of-add phys h, bit_and_p (entry_of phys))

pub entry_of-small : (phys : ℕ) → IsPage phys → is_huge (entry_of phys) ≡ false
entry_of-small phys h = ground (arith, entry_of-add phys h, bit_and_ps (entry_of phys))

pub entry_of-address : (phys : ℕ) → IsPage phys → address (entry_of phys) ≡ phys
entry_of-address phys h = ground (arith, entry_of-add phys h, bit_and_address (entry_of phys))

pub address-IsPage : (e : ℕ) → IsPage (address e)
address-IsPage e = (ground (arith, bit_and_address e), ground (arith, bit_and_address e))
