-- ===== src/BootInfo.antt =====
-- What the loader hands to the kernel: jotunheimkernel/src/bootinfo.rs. The memory map, a pointer and
-- a length in the source, is a list.
use jotunheim.Prelude.{ℕ, List}

pub record Framebuffer : Type 0 where
  pub addr : ℕ
  pub width : ℕ
  pub height : ℕ
  pub pitch : ℕ
  pub bpp : ℕ
  pub pixel_format : ℕ

pub record MemoryRegion : Type 0 where
  pub phys_start : ℕ
  pub virt_start : ℕ
  pub len : ℕ
  pub typ : ℕ
  pub attr : ℕ

pub record BootInfo : Type 0 where
  pub rsdp_addr : ℕ
  pub memory_map : List MemoryRegion
  pub framebuffer : Framebuffer
  pub kernel_phys_base : ℕ
  pub kernel_virt_base : ℕ
  pub early_heap_paddr : ℕ
  pub early_heap_len : ℕ
  pub hhdm_base : ℕ
  pub low32_pool_paddr : ℕ
  pub low32_pool_len : ℕ
