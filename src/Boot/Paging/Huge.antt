-- ===== src/Boot/Paging/Huge.antt =====
-- `map_hhdm_huge` of jotunboot/src/main.rs: all physical memory at `HHDM_BASE`, in pages of 1 GiB,
-- then of 2 MiB, then of 4 KiB.
pub mod Chunk
pub mod Cover
pub mod Rounds
use jotunheim.Prelude.{
  ℕ, zero, suc, ◌+◌, ◌-◌, ◌/◌, ◌^◌, Bool, not, ltb, leb, ◌&&◌, if◌then◌else◌, bit_and, bit_or,
}
use jotunheim.Prelude.Words.{add64}
use jotunheim.Boot.{hhdm_base, is_aligned}
use jotunheim.Prelude.Outcome.{Outcome, ok, err, out_of_fuel, ◌>>=◌}
use jotunheim.Boot.Pages.{Firmware, Store}
use jotunheim.Boot.Paging.{
  pte_ps, addr_mask, entry_of, is_present, set_entry, pml4_index, pdpt_index, pd_index, ensure_pdpt,
  ensure_pd, map_4kib_page,
}

-- `(phys & ADDR_MASK) | PTE_P | PTE_RW | PTE_PS`
abbrev pub huge_entry_of : ℕ → ℕ
huge_entry_of phys = bit_or (entry_of (bit_and phys addr_mask)) pte_ps

-- A chunk of the size is left, and both its ends lie on a multiple of the size.
abbrev pub fits_chunk : ℕ → ℕ → ℕ → Bool
fits_chunk size phys_max phys =
    leb size (phys_max - phys) && is_aligned phys size && is_aligned (add64 hhdm_base phys) size

module _ (fw : Firmware) where
  -- An entry that is present stays.
  abbrev pub set_absent : Store fw → ℕ → ℕ → ℕ → Store fw
  set_absent st table i e =
      if not (is_present (st.mem table i)) then set_entry fw st table i e else st

  module _ (pml4 : ℕ) where
    unfoldable pub gib_round : ℕ → Store fw → Outcome (Store fw)
    gib_round phys st = do
      let va = add64 hhdm_base phys
      (pdpt, st₁) ← ensure_pdpt fw pml4 (pml4_index va) st
      ok (set_absent st₁ pdpt (pdpt_index va) (huge_entry_of phys))

    unfoldable pub mib_round : ℕ → Store fw → Outcome (Store fw)
    mib_round phys st = do
      let va = add64 hhdm_base phys
      (pdpt, st₁) ← ensure_pdpt fw pml4 (pml4_index va) st
      (pd, st₂) ← ensure_pd fw pdpt (pdpt_index va) st₁
      ok (set_absent st₂ pd (pd_index va) (huge_entry_of phys))

    -- A loop over chunks: where it stops, and the store then.
    unfoldable pub chunk_loop :
        (size : ℕ) (round : ℕ → Store fw → Outcome (Store fw))
        → ℕ
        → ℕ
        → ℕ
        → Store fw
        → Outcome (ℕ × Store fw)
    chunk_loop size round zero phys_max phys st = out_of_fuel
    chunk_loop size round (suc fuel) phys_max phys st =
        let rest = (do
          st' ← round phys st
          chunk_loop size round fuel phys_max (add64 phys size) st') in
        if ltb phys phys_max
        then if fits_chunk size phys_max phys then rest else ok (phys, st)
        else ok (phys, st)

    unfoldable pub tail_loop : ℕ → ℕ → ℕ → Store fw → Outcome (Store fw)
    tail_loop zero phys_max phys st = out_of_fuel
    tail_loop (suc fuel) phys_max phys st =
        let rest = (do
          st' ← map_4kib_page fw pml4 (add64 hhdm_base phys) phys st
          tail_loop fuel phys_max (add64 phys 4096) st') in
        if ltb phys phys_max then rest else ok st

    -- Each round passes one chunk of its size, so a round more than there are chunks is enough.
    unfoldable pub map_hhdm_huge : ℕ → Store fw → Outcome (Store fw)
    map_hhdm_huge phys_max st = do
      (p₁, st₁) ← chunk_loop (2 ^ 30) gib_round (suc (phys_max / 2 ^ 30)) phys_max 0 st
      (p₂, st₂) ← chunk_loop (2 ^ 21) mib_round (suc ((phys_max - p₁) / 2 ^ 21)) phys_max p₁ st₁
      tail_loop (suc ((phys_max - p₂ + 4095) / 4096)) phys_max p₂ st₂
