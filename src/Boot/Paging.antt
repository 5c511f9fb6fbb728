-- ===== src/Boot/Paging.antt =====
-- The page table routines of jotunboot/src/main.rs. A table is named by its physical address.
pub mod Entries
pub mod Walk
pub mod Tables
pub mod Ensure
pub mod Leaf
pub mod Write
pub mod Page
pub mod Range
pub mod Huge
pub mod Build
pub mod Image
pub mod Layout
pub mod Ident
pub mod Start
pub mod Exec
use jotunheim.Prelude.{
  ℕ, zero, suc, ◌+◌, ◌-◌, ◌/◌, ◌^◌, Bool, true, false, not, Option, none, some, ltb, ◌==◌, ◌&&◌,
  if◌then◌else◌, bit_and, bit_or,
}
use jotunheim.Prelude.Words.{add64}
use jotunheim.Boot.{align_up, align_down}
use jotunheim.Prelude.Outcome.{Outcome, ok, err, out_of_fuel, ◌>>=◌}
use jotunheim.Boot.Pages.{Firmware, Store, write_entry, alloc_zero_page}

abbrev pub pte_p : ℕ
pte_p = 1

abbrev pub pte_rw : ℕ
pte_rw = 2

abbrev pub pte_ps : ℕ
pte_ps = 0x80

abbrev pub addr_mask : ℕ
addr_mask = 0x000ffffffffff000

abbrev pub is_present : ℕ → Bool
is_present e = not (bit_and e pte_p == 0)

abbrev pub is_huge : ℕ → Bool
is_huge e = not (bit_and e pte_ps == 0)

abbrev pub address : ℕ → ℕ
address e = bit_and e addr_mask

abbrev pub pml4_index : ℕ → ℕ
pml4_index va = bit_and (va / 2 ^ 39) 0x1ff

abbrev pub pdpt_index : ℕ → ℕ
pdpt_index va = bit_and (va / 2 ^ 30) 0x1ff

abbrev pub pd_index : ℕ → ℕ
pd_index va = bit_and (va / 2 ^ 21) 0x1ff

abbrev pub pt_index : ℕ → ℕ
pt_index va = bit_and (va / 2 ^ 12) 0x1ff

-- `phys | PTE_P | PTE_RW`
abbrev pub entry_of : ℕ → ℕ
entry_of phys = bit_or (bit_or phys pte_p) pte_rw

module _ (fw : Firmware) where
  abbrev set_entry : Store fw → ℕ → ℕ → ℕ → Store fw
  set_entry st table i e = record st { mem = write_entry st.mem table i e }

  -- The shared body of the `ensure_` functions: the table that entry `i` points to, a new one where
  -- the entry is not present. `rejects_huge`: whether a huge page in the way is an error.
  unfoldable pub ensure_table : Bool → ℕ → ℕ → Store fw → Outcome (ℕ × Store fw)
  ensure_table rejects_huge table i st =
      let e = st.mem table i in
      if not (is_present e)
      then elim (alloc_zero_page fw st) [
        | none ↦ err
        | some (q, st') ↦ ok (q, set_entry st' table i (entry_of q))
      ]
      else if rejects_huge && is_huge e
      then err
      else ok (address e, st)

  abbrev pub ensure_pdpt : ℕ → ℕ → Store fw → Outcome (ℕ × Store fw)
  ensure_pdpt = ensure_table false

  abbrev pub ensure_pd : ℕ → ℕ → Store fw → Outcome (ℕ × Store fw)
  ensure_pd = ensure_table true

  abbrev pub ensure_pt : ℕ → ℕ → Store fw → Outcome (ℕ × Store fw)
  ensure_pt = ensure_table true

  module _ (pml4 : ℕ) where
    -- The three calls that both routines for small pages begin with.
    unfoldable pub ensure_tables : ℕ → Store fw → Outcome (ℕ × Store fw)
    ensure_tables va st = do
      (pdpt, st₁) ← ensure_pdpt pml4 (pml4_index va) st
      (pd, st₂) ← ensure_pd pdpt (pdpt_index va) st₁
      ensure_pt pd (pd_index va) st₂

    -- One round of `map_4k_offset`; `delta` is the `i128` modulo `2 ^ 64`, all that `as u64` keeps.
    unfoldable pub map_4k_round : ℕ → ℕ → Store fw → Outcome (Store fw)
    map_4k_round delta va st = do
      (pt, st') ← ensure_tables va st
      ok (set_entry st' pt (pt_index va) (entry_of (bit_and (add64 va delta) addr_mask)))

    unfoldable pub map_4k_loop : ℕ → ℕ → ℕ → ℕ → Store fw → Outcome (Store fw)
    map_4k_loop zero delta end va st = out_of_fuel
    map_4k_loop (suc fuel) delta end va st =
        let rest = (do
          st' ← map_4k_round delta va st
          map_4k_loop fuel delta end (add64 va 0x1000) st') in
        if ltb va end then rest else ok st

    -- Each round passes a page, so one round more than the range has pages is enough.
    unfoldable pub map_4k_offset : ℕ → ℕ → ℕ → Store fw → Outcome (Store fw)
    map_4k_offset start_va end_va delta st =
        let va = align_down start_va 0x1000 in
        let end = align_up end_va 0x1000 in map_4k_loop (suc ((end - va) / 4096)) delta end va st

    abbrev pub map_4k_ident : ℕ → ℕ → Store fw → Outcome (Store fw)
    map_4k_ident start_va end_va st = map_4k_offset start_va end_va 0 st

    -- `map_4kib_page`: an entry that is present stays.
    unfoldable pub map_4kib_page : ℕ → ℕ → Store fw → Outcome (Store fw)
    map_4kib_page va phys st = do
      (pt, st') ← ensure_tables va st
      let pte = st'.mem pt (pt_index va)
      ok (
          if not (is_present pte)
          then set_entry st' pt (pt_index va) (entry_of (bit_and phys addr_mask))
          else st')
