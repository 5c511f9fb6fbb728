-- ===== src/Boot/Handoff.antt =====
-- What the loader tells the kernel of the memory: `uefi_type_to_kernel`, `build_memory_regions_vec` and
-- the bounds that `main` takes of it, jotunboot/src/main.rs. The firmware's map is of another crate: a
-- descriptor is what the code reads of it.
use jotunheim.Prelude.{ℕ, ◌*◌, ◌+◌, ◌%◌, List, [], ◌∷◌, ◌^◌, ltb, if◌then◌else◌, bit_and}
use jotunheim.Prelude.Words.{u64_mod, add64, sub64, not64, saturating_add}
use jotunheim.BootInfo.{MemoryRegion, Framebuffer}
use jotunheim.Boot.Paging.Build.{max}

pub data MemoryType : Type 0 where
  conventional loader_code loader_data boot_services_code boot_services_data : MemoryType
  runtime_services_code runtime_services_data acpi_reclaim : MemoryType
  any_other : ℕ → MemoryType

pub record MemoryDescriptor : Type 0 where
  pub ty : MemoryType
  pub phys_start : ℕ
  pub page_count : ℕ
  pub att : ℕ

unfoldable pub uefi_type_to_kernel : MemoryType → ℕ
uefi_type_to_kernel conventional = 1
uefi_type_to_kernel loader_code = 2
uefi_type_to_kernel loader_data = 3
uefi_type_to_kernel boot_services_code = 4
uefi_type_to_kernel boot_services_data = 5
uefi_type_to_kernel runtime_services_code = 6
uefi_type_to_kernel runtime_services_data = 7
uefi_type_to_kernel acpi_reclaim = 8
uefi_type_to_kernel (any_other n) = 0

-- One turn of the loop
abbrev pub region_of : MemoryDescriptor → MemoryRegion
region_of d = record {
  phys_start = d.phys_start;
  virt_start = 0;
  len = d.page_count * 4096 % u64_mod;
  typ = uefi_type_to_kernel d.ty;
  attr = d.att;
}

unfoldable pub build_memory_regions_vec : List MemoryDescriptor → List MemoryRegion
build_memory_regions_vec [] = []
build_memory_regions_vec (d ∷ ds) = region_of d ∷ build_memory_regions_vec ds

-- The end of the highest region, or 0.
unfoldable pub phys_max : List MemoryRegion → ℕ
phys_max [] = 0
phys_max (r ∷ rs) = max (saturating_add r.phys_start r.len) (phys_max rs)

-- The pages that are identity mapped for the jump into the kernel, by their addresses.
pub record Placement : Type 0 where
  pub tramp_page : ℕ
  pub bi_page : ℕ
  pub stack_base : ℕ
  pub load_base : ℕ
  pub min_vaddr : ℕ
  pub max_vaddr : ℕ
  pub early_heap_paddr : ℕ
  pub early_heap_len : ℕ
  pub memmap_pages : ℕ
  pub map_pages : ℕ
  pub fb : Framebuffer

abbrev pub stack_top_aligned : Placement → ℕ
stack_top_aligned p = bit_and (add64 p.stack_base (16 * 4096)) (not64 0xf)

abbrev pub stack_top_sysv : Placement → ℕ
stack_top_sysv p = sub64 (stack_top_aligned p) 8

-- `tramp_end` to `fb_end`
abbrev pub ends : Placement → List ℕ
ends p =
    add64 p.tramp_page 0x1000
    ∷ add64 p.bi_page 0x1000
    ∷ stack_top_aligned p
    ∷ add64 p.load_base (sub64 p.max_vaddr p.min_vaddr)
    ∷ add64 p.early_heap_paddr p.early_heap_len
    ∷ add64 p.memmap_pages (p.map_pages * 4096 % u64_mod)
    ∷ add64 p.fb.addr (p.fb.pitch * p.fb.height)
    ∷ []

-- `iter().max()`
abbrev pub highest : List ℕ → ℕ
highest [] = 0
highest (x ∷ xs) = max x (highest xs)

-- With the floor of 1 GiB and the registers of the interrupt controllers.
unfoldable pub ident_hi : Placement → ℕ
ident_hi p =
    let hi = highest (ends p) in
    let floored = if ltb hi (2 ^ 30) then 2 ^ 30 else hi in
    max (max floored (0xfec0_0000 + 0x1000)) (0xfee0_0000 + 0x1000)
