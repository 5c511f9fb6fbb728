-- ===== src/Mem/Frames/Handed.antt =====
-- The frames that the kernel takes, from the firmware's map on: the boot loader's `build_memory_regions_vec`
-- of jotunboot/src/main.rs, then `init`, `seed_usable_from_mmap` and the allocators of
-- jotunheimkernel/src/mem/mod.rs.
use jotunheim.Prelude.{
  ℕ, ◌+◌, ◌-◌, ◌*◌, ◌%◌, ◌≤◌, ◌<◌, ◌≡◌, refl, ◌⊎◌, inl, inr, Bool, Option, some, List, [], ◌∷◌,
  arith, leb, ◌==◌, if◌then◌else◌, not, Bool-cases, bit_and,
}
use mathlib.Core.Path.{subst}
use jotunheim.Prelude.Lists.{All}
use jotunheim.Prelude.Words.{u64_mod, add64, not64, bit_and_page}
use jotunheim.BootInfo.{BootInfo, MemoryRegion}
use jotunheim.Boot.Handoff.{
  MemoryType, conventional, loader_code, loader_data, boot_services_code, boot_services_data,
  runtime_services_code, runtime_services_data, acpi_reclaim, any_other, MemoryDescriptor,
  uefi_type_to_kernel, build_memory_regions_vec,
}
use jotunheim.Mem.BoundedVec.{BoundedVec}
use jotunheim.Mem.Page.{align_down, align_up, align_down_page, align_up_page}
use jotunheim.Mem.Bump.{new}
use jotunheim.Mem.Usable.{max_usable, push_ok, seed_regions, seed_usable_from_mmap}
use jotunheim.Mem.Frames.{Frames, init, guard_allocate_frame}
use jotunheim.Mem.Frames.Owned.{
  OwnedRange, OwnedBump, Sound, Granted, push_ok-OwnedRange, guard_allocate_frame-Granted,
}

-- The firmware's memory ends two pages before the end of the address space at the latest.
abbrev pub DescriptorFits : MemoryDescriptor → Type 0
DescriptorFits d = d.phys_start + d.page_count * 4096 + 0x2000 < u64_mod

-- The page lies in memory that the firmware calls conventional.
abbrev pub IsConventional : List MemoryDescriptor → ℕ → Type 0
IsConventional [] x = ⊥
IsConventional (d ∷ ds) x =
    ((d.ty ≡ conventional) × (d.phys_start ≤ x) × (x + 4096 ≤ d.phys_start + d.page_count * 4096))
    ⊎ IsConventional ds x

-- The page meets the early heap, or lies in conventional memory.
abbrev pub IsKernelPage : BootInfo → List MemoryDescriptor → ℕ → Type 0
IsKernelPage boot ds x =
    ((boot.early_heap_paddr < x + 4096) × (x < boot.early_heap_paddr + boot.early_heap_len))
    ⊎ IsConventional ds x

type_conventional : (t : MemoryType) → uefi_type_to_kernel t ≡ 1 → t ≡ conventional
unfolding uefi_type_to_kernel
type_conventional conventional e = refl
type_conventional loader_code e = absurd (omega arith)
type_conventional loader_data e = absurd (omega arith)
type_conventional boot_services_code e = absurd (omega arith)
type_conventional boot_services_data e = absurd (omega arith)
type_conventional runtime_services_code e = absurd (omega arith)
type_conventional runtime_services_data e = absurd (omega arith)
type_conventional acpi_reclaim e = absurd (omega arith)
type_conventional (any_other n) e = absurd (omega arith)

module _ (vec : BoundedVec (ℕ × ℕ) max_usable) where
  open vec use {Carrier, to_list, to_list-empty, empty}

  module _ (Owned : ℕ → Type 0) where
    abbrev RegionOwned : MemoryRegion → Type 0
    RegionOwned mr =
        mr.typ ≡ 1
        → (mr.phys_start + mr.len + 0x2000 < u64_mod)
          × ((x : ℕ) → mr.phys_start ≤ x → x + 4096 ≤ mr.phys_start + mr.len → Owned x)

    region_range :
        (mr : MemoryRegion) (v : Carrier)
        → RegionOwned mr
        → All (OwnedRange vec Owned) (to_list v)
        → All (OwnedRange vec Owned) (
            to_list (
              let s = bit_and (add64 mr.phys_start 0xfff) (not64 0xfff) in
              let e = bit_and (add64 mr.phys_start mr.len) (not64 0xfff) in
              if not (mr.typ == 1) then v else if leb e s then v else push_ok vec v (s, e)))
    region_range mr v own all = elim (Bool-cases (mr.typ == 1)) [
      | inr other ↦ rw other all
      | inl usable ↦
          let (small, pages) = own (ground arith) in
          let lo : bit_and (add64 mr.phys_start 0xfff) (not64 0xfff)
              ≡ (mr.phys_start + 0xfff) - (mr.phys_start + 0xfff) % 4096 =
            ground (arith, bit_and_page (add64 mr.phys_start 0xfff)) in
          let hi : bit_and (add64 mr.phys_start mr.len) (not64 0xfff)
              ≡ (mr.phys_start + mr.len) - (mr.phys_start + mr.len) % 4096 =
            ground (arith, bit_and_page (add64 mr.phys_start mr.len)) in
          elim (Bool-cases (
            leb ((mr.phys_start + mr.len) - (mr.phys_start + mr.len) % 4096)
              ((mr.phys_start + 0xfff) - (mr.phys_start + 0xfff) % 4096))) [
                | inl nothing ↦ rw (usable, lo, hi, nothing) all
                | inr some_pages ↦
                    rw (usable, lo, hi, some_pages)
                      (push_ok-OwnedRange vec Owned v _
                        (ground arith, ground arith, λ x l u. pages x (omega arith) (omega arith))
                        all)
              ]
    ]

    seed_regions-Owned :
        (mrs : List MemoryRegion) (v : Carrier)
        → All RegionOwned mrs
        → All (OwnedRange vec Owned) (to_list v)
        → All (OwnedRange vec Owned) (to_list (seed_regions vec mrs v))
    unfolding seed_regions
    seed_regions-Owned [] v own all = all
    seed_regions-Owned (mr ∷ mrs) v (first, others) all =
        seed_regions-Owned mrs _ others (region_range mr v first all)

  -- Every region of the loader's that the kernel takes for usable is conventional.
  regions_owned :
      (Owned : ℕ → Type 0) (ds : List MemoryDescriptor)
      → All DescriptorFits ds
      → ((x : ℕ) → IsConventional ds x → Owned x)
      → All (RegionOwned Owned) (build_memory_regions_vec ds)
  unfolding build_memory_regions_vec
  regions_owned Owned [] fits own = tt
  regions_owned Owned (d ∷ ds) (fits, others) own = (
    (λ is_one.
        let len : d.page_count * 4096 % u64_mod ≡ d.page_count * 4096 = omega arith in
        (omega arith, λ x l u. own x (inl (type_conventional d.ty is_one, l, omega arith)))),
    regions_owned Owned ds others (λ x c. own x (inr c)),
  )

  -- What the kernel does: both inits at the start, then allocations, the reserved pages being what they
  -- are at each.
  pub data Reached (boot : BootInfo) : Frames vec → Type 0 where
    started :
        (s s' : Frames vec)
        → init vec boot s ≡ some s'
        → Reached boot (record s' { usable = seed_usable_from_mmap vec boot })
    allocated :
        (reserved : ℕ → Bool) (s s' : Frames vec) (o : Option ℕ)
        → Reached boot s
        → guard_allocate_frame vec reserved s ≡ some (o, s')
        → Reached boot s'

  init-frame_alloc :
      (boot : BootInfo) (s s' : Frames vec)
      → init vec boot s ≡ some s'
      → s'.frame_alloc
        ≡ some (
            new
              (align_down boot.early_heap_paddr 0x1000)
              (align_up (add64 boot.early_heap_paddr boot.early_heap_len) 0x1000))
  unfolding init
  init-frame_alloc boot s s' e = elim (Bool-cases (bit_and boot.hhdm_base 0xfff == 0)) [
    | inl aligned ↦ ground (arith, aligned, e)
    | inr off ↦ ground (arith, off, e)
  ]

  module _ (boot : BootInfo) (ds : List MemoryDescriptor)
      (handed : boot.memory_map ≡ build_memory_regions_vec ds) (fits : All DescriptorFits ds)
      (heap : boot.early_heap_paddr + boot.early_heap_len + 0x2000 < u64_mod) where
    heap_owned : OwnedBump vec (IsKernelPage boot ds) (
        some (
          new
            (align_down boot.early_heap_paddr 0x1000)
            (align_up (add64 boot.early_heap_paddr boot.early_heap_len) 0x1000)))
    heap_owned =
        let lo = align_down_page boot.early_heap_paddr (omega arith) in
        let hi = align_up_page (add64 boot.early_heap_paddr boot.early_heap_len) (omega arith) in
        (
          (omega (arith, lo, hi), omega (arith, lo, hi)),
          λ x l u. inl (omega (arith, lo, hi), omega (arith, lo, hi)),
        )

    seed-Owned :
        All (OwnedRange vec (IsKernelPage boot ds)) (to_list (seed_usable_from_mmap vec boot))
    unfolding seed_usable_from_mmap
    seed-Owned =
        let owned = regions_owned (IsKernelPage boot ds) ds fits (λ x c. inr c) in
        rw handed (seed_regions-Owned (IsKernelPage boot ds) _ empty owned (rw to_list-empty tt))

    Reached-Sound : (s : Frames vec) → Reached boot s → Sound vec (IsKernelPage boot ds) s
    Reached-Sound _ (started s0 s' e) = (rw (init-frame_alloc boot s0 s' e) heap_owned, seed-Owned)
    Reached-Sound _ (allocated reserved s0 s o r e) =
        let (o', s1, e', granted, sound) =
          guard_allocate_frame-Granted vec (IsKernelPage boot ds) reserved s0
            (Reached-Sound s0 r) in
        let same : s1 ≡ s = cc in subst (Sound vec (IsKernelPage boot ds)) same sound

    -- Whatever the kernel has allocated since it was started with the memory map that the boot loader
    -- makes of the firmware's, an allocation ends, and a frame that it gives meets the early heap or
    -- lies in memory that the firmware calls conventional, and is not reserved. Two pages at least are
    -- left behind the memory and the heap up to the end of the address space.
    pub Reached-Granted :
        (reserved : ℕ → Bool) (s : Frames vec)
        → Reached boot s
        → (o : Option ℕ) × (s' : Frames vec) × (guard_allocate_frame vec reserved s ≡ some (o, s'))
          × Granted vec (IsKernelPage boot ds) reserved o
    Reached-Granted reserved s r =
        let (o, s', e, granted, sound) =
          guard_allocate_frame-Granted vec (IsKernelPage boot ds) reserved s (Reached-Sound s r) in
        (o, s', e, granted)
