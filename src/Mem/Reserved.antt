-- ===== src/Mem/Reserved.antt =====
-- The table of reserved physical ranges: jotunheimkernel/src/mem/reserved.rs.
pub mod Overlap
use jotunheim.Prelude.{
  ℕ, ◌+◌, ◌*◌, ◌%◌, ◌^◌, Bool, true, false, not, ◌&&◌, ◌||◌, Option, none, some, List, [], ◌∷◌, ltb,
  leb, ◌==◌, if◌then◌else◌,
}
use jotunheim.Prelude.Words.{u64_mod, add64, saturating_add}
use jotunheim.BootInfo.{BootInfo, MemoryRegion}
use jotunheim.Mem.BoundedVec.{BoundedVec}
use jotunheim.Mem.Page.{align_down, align_up}

pub data ResvKind : Type 0 where
  firmware : ℕ → ResvKind
  kernel framebuffer mmio trampoline : ResvKind
  other : ℕ → ResvKind

-- `start` is inclusive, `end` exclusive.
pub record Resv : Type 0 where
  pub start : ℕ
  pub end : ℕ
  pub kind : ResvKind

abbrev pub max_resv : ℕ
max_resv = 128

unfoldable pub any_overlap : ℕ → ℕ → List Resv → Bool
any_overlap s e [] = false
any_overlap s e (r ∷ rs) = (ltb s r.end && ltb r.start e) || any_overlap s e rs

module _ (vec : BoundedVec Resv max_resv) where
  open vec use {Carrier, empty, to_list, push}

  -- `false` where the table is full.
  unfoldable pub reserve_range : ℕ → ℕ → ResvKind → Carrier → Bool × Carrier
  reserve_range start len kind v =
      let s = align_down start 0x1000 in
      let e = align_up (add64 start len) 0x1000 in
      if len == 0 then (true, v) else elim (push v (record { start = s; end = e; kind = kind })) [
        | none ↦ (false, v)
        | some v' ↦ (true, v')
      ]

  unfoldable pub is_reserved_range : ℕ → ℕ → Carrier → Bool
  is_reserved_range phys len v =
      let s = align_down phys 0x1000 in
      let e = align_up (add64 phys len) 0x1000 in
      if len == 0 then false else any_overlap s e (to_list v)

  unfoldable pub is_reserved_page : ℕ → Carrier → Bool
  is_reserved_page phys v = is_reserved_range phys 0x1000 v

  -- The regions of the memory map that are not usable and do not meet the low pool.
  unfoldable pub reserve_regions : ℕ → ℕ → List MemoryRegion → Carrier → Carrier
  reserve_regions l32_lo l32_hi [] v = v
  reserve_regions l32_lo l32_hi (mr ∷ mrs) v =
      let mr_lo = mr.phys_start in
      let mr_hi = saturating_add mr.phys_start mr.len in
      let overlaps_low32 = not (leb mr_hi l32_lo || leb l32_hi mr_lo) in
      reserve_regions l32_lo l32_hi mrs (
        if not (mr.typ == 1) && not overlaps_low32
        then (reserve_range mr.phys_start mr.len (firmware mr.typ) v).1
        else v)

  unfoldable pub reserve_framebuffer : BootInfo → Carrier → Carrier
  reserve_framebuffer boot v =
      let fb = boot.framebuffer in
      if not (fb.addr == 0) && not (fb.pitch == 0)
      then (reserve_range fb.addr (fb.pitch * fb.height % u64_mod) framebuffer v).1
      else v

  -- `k_size` is the size of the kernel image, from the linker's symbols.
  unfoldable pub init : BootInfo → ℕ → Carrier
  init boot k_size =
      let l32_lo = boot.low32_pool_paddr in
      let l32_hi = add64 l32_lo boot.low32_pool_len in
      let v₁ = reserve_regions l32_lo l32_hi boot.memory_map empty in
      let v₂ = reserve_framebuffer boot v₁ in
      let v₃ = (reserve_range 0 boot.low32_pool_paddr (firmware 0) v₂).1 in
      let heap_end = add64 boot.early_heap_paddr boot.early_heap_len in
      let v₄ = (reserve_range heap_end 0x10_0000 (firmware 0) v₃).1 in
      let v₅ = (reserve_range 0x8000 0x1000 trampoline v₄).1 in
      let v₆ = (reserve_range 0xfee0_0000 0x1000 mmio v₅).1 in
      let v₇ = (reserve_range 0xfec0_0000 0x1000 mmio v₆).1 in
      (reserve_range boot.kernel_phys_base k_size kernel v₇).1
