-- ===== src/Mem/Mapping/Examples.antt =====
-- The theorems on mapping with page tables that are a function.
use jotunheim.Prelude.{true, ℕ, ◌+◌, refl, arith}
use jotunheim.Prelude.Outcome.{Meets}
use jotunheim.Mem.Mapping.{map_mmio}
use jotunheim.Mem.Mapping.Pages.{Refusing}
use jotunheim.Mem.Mapping.Mmio.{Registers, map_mmio-Window}
use jotunheim.Mem.Mapping.Tables.{endless, tables, nothing_mapped}

abbrev lapic : ℕ
lapic = 0xfee0_0000

map_mmio-Window_example :
    Meets
      (Refusing endless tables)
      (Registers endless tables (lapic + 0x20) 0x1000 0xffff_d000_0000_0000 nothing_mapped)
      (map_mmio endless tables true (lapic + 0x20) 0x1000 0xffff_d000_0000_0000 nothing_mapped)
map_mmio-Window_example =
    map_mmio-Window endless tables true (lapic + 0x20) 0x1000 0xffff_d000_0000_0000 nothing_mapped
      refl (omega arith) (omega arith) refl (omega arith) (λ q a b. refl)
