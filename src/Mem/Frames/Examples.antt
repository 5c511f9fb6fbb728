-- ===== src/Mem/Frames/Examples.antt =====
-- The frames of a small machine, and the theorem on them.
use jotunheim.Prelude.{ℕ, ◌≡◌, refl, Bool, Option, none, some, List, [], ◌∷◌, arith, ltb}
use jotunheim.BootInfo.{BootInfo}
use jotunheim.Boot.Handoff.{
  conventional, loader_data, runtime_services_data, MemoryDescriptor, build_memory_regions_vec,
  uefi_type_to_kernel, phys_max,
}
use jotunheim.Mem.BoundedVec.{BoundedVec, list_vec}
use jotunheim.Mem.Page.{align_down, align_up}
use jotunheim.Mem.Bump.{new}
use jotunheim.Mem.Usable.{max_usable, seed_usable_from_mmap, seed_regions}
use jotunheim.Mem.Frames.{Frames, init, guard_allocate_frame}
use jotunheim.Mem.Frames.Owned.{Granted}
use jotunheim.Mem.Frames.Handed.{IsKernelPage, started, Reached-Granted}

abbrev ranges : BoundedVec (ℕ × ℕ) max_usable
ranges = list_vec (ℕ × ℕ) max_usable

-- The early heap is loader data between two pieces of conventional memory.
abbrev machine : List MemoryDescriptor
machine =
    record { ty = conventional; phys_start = 0x1000; page_count = 15; att = 0xf }
    ∷ record { ty = loader_data; phys_start = 0x1_0000; page_count = 16; att = 0xf }
    ∷ record { ty = conventional; phys_start = 0x2_0000; page_count = 0x100; att = 0xf }
    ∷ record { ty = runtime_services_data; phys_start = 0x12_0000; page_count = 8; att = 0xf }
    ∷ []

abbrev boot : BootInfo
boot = record {
  rsdp_addr = 0;
  memory_map = build_memory_regions_vec machine;
  framebuffer = record { addr = 0; width = 0; height = 0; pitch = 0; bpp = 32; pixel_format = 0 };
  kernel_phys_base = 0x2_0000;
  kernel_virt_base = 0xffff_ffff_8000_0000;
  early_heap_paddr = 0x1_0000;
  early_heap_len = 0x1_0000;
  hhdm_base = 0xffff_8880_0000_0000;
  low32_pool_paddr = 0;
  low32_pool_len = 0;
}

abbrev blank : Frames ranges
blank = record { frame_alloc = none; low32_alloc = none; usable = []; offset = 0; cr0 = 1 }

abbrev begun : Frames ranges
begun = record blank {
  frame_alloc = some (new 0x1_0000 0x2_0000);
  offset = 0xffff_8880_0000_0000;
  cr0 = 0x1_0001;
}

init_runs : init ranges boot blank ≡ some begun
unfolding init align_down align_up
init_runs = refl

-- Two of the four regions are usable.
seed_runs : seed_usable_from_mmap ranges boot ≡ (0x2_0000, 0x12_0000) ∷ (0x1000, 0x1_0000) ∷ []
unfolding seed_usable_from_mmap seed_regions build_memory_regions_vec uefi_type_to_kernel
seed_runs = refl

phys_max_runs : phys_max (build_memory_regions_vec machine) ≡ 0x12_8000
unfolding phys_max build_memory_regions_vec
phys_max_runs = refl

-- The loader's own memory is not for the kernel to take.
abbrev loader_pages : ℕ → Bool
loader_pages x = ltb x 0x2_0000

abbrev ready : Frames ranges
ready = record begun { usable = seed_usable_from_mmap ranges boot }

Reached-Granted_example :
    (o : Option ℕ) × (s' : Frames ranges) × (guard_allocate_frame ranges loader_pages ready
      ≡ some (o, s'))
    × Granted ranges (IsKernelPage boot machine) loader_pages o
Reached-Granted_example =
    Reached-Granted ranges boot machine refl
      (omega arith, (omega arith, (omega arith, (omega arith, tt)))) (omega arith) loader_pages
      ready (started blank begun init_runs)
