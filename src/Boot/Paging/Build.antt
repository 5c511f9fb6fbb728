-- ===== src/Boot/Paging/Build.antt =====
-- `build_pagetables_exec` of jotunboot/src/main.rs: the kernel's image, the identity mapping around it
-- and the mapping of all physical memory.
use jotunheim.Prelude.{
  ℕ, zero, suc, ◌+◌, ◌-◌, ◌*◌, ◌/◌, Bool, not, none, some, ltb, leb, ◌||◌, if◌then◌else◌,
}
use jotunheim.Prelude.Words.{add64, sub64}
use jotunheim.Boot.{align_up}
use jotunheim.Prelude.Outcome.{Outcome, ok, err, out_of_fuel, ◌>>=◌}
use jotunheim.Boot.Pages.{Firmware, Store, alloc_zero_page_low}
use jotunheim.Boot.Paging.{map_4k_offset, map_4k_ident, map_4kib_page}
use jotunheim.Boot.Paging.Huge.{map_hhdm_huge}

abbrev pub min : ℕ → ℕ → ℕ
min a b = if ltb b a then b else a

abbrev pub max : ℕ → ℕ → ℕ
max a b = if ltb b a then a else b

abbrev pub two_mib : ℕ
two_mib = 2 * 1024 * 1024

abbrev pub overlap_kernel : ℕ → ℕ → ℕ → Bool
overlap_kernel min_vaddr max_vaddr va = not (leb (add64 va 0x1000) min_vaddr || leb max_vaddr va)

module _ (fw : Firmware) where
  -- A step under an `if` without `else`.
  abbrev pub when : Bool → (Store fw → Outcome (Store fw)) → Store fw → Outcome (Store fw)
  when b f st = if b then f st else ok st

  module _ (pml4 min_vaddr max_vaddr : ℕ) where
    unfoldable pub ident_loop : ℕ → ℕ → ℕ → Store fw → Outcome (Store fw)
    ident_loop zero ident_end va st = out_of_fuel
    ident_loop (suc fuel) ident_end va st =
        let rest = (do
          st' ← when (not (overlap_kernel min_vaddr max_vaddr va)) (map_4kib_page fw pml4 va va) st
          ident_loop fuel ident_end (add64 va 0x1000) st') in
        if ltb va ident_end then rest else ok st

    -- The kernel's image: what lies below 2 MiB, then the rest.
    unfoldable pub map_image : ℕ → Store fw → Outcome (Store fw)
    map_image delta st = do
      st₁ ←
          when (ltb min_vaddr two_mib)
            (map_4k_offset fw pml4 min_vaddr (min max_vaddr two_mib) delta) st
      map_4k_offset fw pml4 (max two_mib min_vaddr) max_vaddr delta st₁

    -- The identity mapping of the first 2 MiB around the image.
    unfoldable pub map_low_ident : Store fw → Outcome (Store fw)
    map_low_ident st = do
      st₁ ←
          when (ltb 0 (min min_vaddr two_mib)) (map_4k_ident fw pml4 0x1000 (min min_vaddr two_mib))
            st
      when (ltb max_vaddr two_mib) (map_4k_ident fw pml4 max_vaddr two_mib) st₁

    -- The identity mapping from 2 MiB on. A round passes a page, so the pages are rounds enough.
    unfoldable pub map_high_ident : ℕ → Store fw → Outcome (Store fw)
    map_high_ident ident_bytes st =
        let ident_end = align_up ident_bytes 0x1000 in
        ident_loop (suc ((ident_end - two_mib + 4095) / 4096)) ident_end (max two_mib 0) st

  -- The address of the PML4, and the store.
  unfoldable pub build_pagetables_exec :
      (load_base min_vaddr max_vaddr ident_bytes phys_max : ℕ) → Store fw → Outcome (ℕ × Store fw)
  build_pagetables_exec load_base min_vaddr max_vaddr ident_bytes phys_max st =
      elim (alloc_zero_page_low fw st) [
        | none ↦ err
        | some (pml4, st₀) ↦ (do
          st₁ ← map_image pml4 min_vaddr max_vaddr (sub64 load_base min_vaddr) st₀
          st₂ ← map_low_ident pml4 min_vaddr max_vaddr st₁
          st₃ ← map_high_ident pml4 min_vaddr max_vaddr ident_bytes st₂
          st₄ ← map_hhdm_huge fw pml4 (align_up phys_max 0x1000) st₃
          ok (pml4, st₄))
      ]
