-- ===== src/Mem/Frames.antt =====
-- Where the kernel's frames come from: `init`, `TinyAllocGuard` and `alloc_one_phys_page_hhdm` of
-- jotunheimkernel/src/mem/mod.rs. `reserved` is `is_reserved_page`.
pub mod Owned
pub mod Handed
mod Examples
use jotunheim.Prelude.{
  ℕ, ◌+◌, ◌<◌, ◌^◌, Bool, Option, none, some, ltb, leb, ◌==◌, ◌&&◌, if◌then◌else◌, not, bit_and,
  bit_or,
}
use jotunheim.Prelude.Words.{add64}
use jotunheim.Prelude.Outcome.{Outcome, ok, err, out_of_fuel}
use jotunheim.BootInfo.{BootInfo}
use jotunheim.Mem.BoundedVec.{BoundedVec}
use jotunheim.Mem.Page.{align_down, align_up}
use jotunheim.Mem.Bump.{TinyBump, new, allocate_frame}
use jotunheim.Mem.Usable.{max_usable, fallback_take_frame}

-- Memory by address.
abbrev pub Bytes : Type 0
Bytes = ℕ → ℕ

-- `write_bytes(va, 0, n)`
abbrev pub write_zeros : ℕ → ℕ → Bytes → Bytes
write_zeros va n mem a = if leb va a && ltb a (va + n) then 0 else mem a

module _ (vec : BoundedVec (ℕ × ℕ) max_usable) where
  open vec use {Carrier}

  -- The statics `FRAME_ALLOC`, `LOW32_ALLOC`, `USABLE` and `PHYS_TO_VIRT_OFFSET`, and the register.
  pub record Frames : Type 0 where
    pub frame_alloc : Option TinyBump
    pub low32_alloc : Option TinyBump
    pub usable : Carrier
    pub offset : ℕ
    pub cr0 : ℕ

  abbrev page_range : (start len : ℕ) → TinyBump
  page_range start len = new (align_down start 0x1000) (align_up (add64 start len) 0x1000)

  -- `none`: the base is no page boundary, and the kernel stops.
  unfoldable pub init : BootInfo → Frames → Option Frames
  init boot s =
      if not (bit_and boot.hhdm_base 0xfff == 0)
      then none
      else some (record s {
        offset = boot.hhdm_base;
        frame_alloc = some (page_range boot.early_heap_paddr boot.early_heap_len);
        low32_alloc =
            if leb 0x1000 boot.low32_pool_len
            then some (page_range boot.low32_pool_paddr boot.low32_pool_len)
            else s.low32_alloc;
        cr0 = bit_or s.cr0 (2 ^ 16);
      })

  module _ (reserved : ℕ → Bool) where
    -- The call of `fallback_take_frame`. `none` outside: the fuel ran out.
    unfoldable pub fall_back : Frames → Option (Option ℕ × Frames)
    fall_back s = elim (fallback_take_frame vec reserved s.usable) [
      | none ↦ none
      | some (o, usable) ↦ some (o, record s { usable = usable })
    ]

    -- `TinyAllocGuard::allocate_frame`
    unfoldable pub guard_allocate_frame : Frames → Option (Option ℕ × Frames)
    guard_allocate_frame s = elim s.frame_alloc [
      | none ↦ fall_back s
      | some a ↦ elim (allocate_frame reserved a) [
        | none ↦ none
        | some (some pf, a') ↦ some (some pf, record s { frame_alloc = some a' })
        | some (none, a') ↦ fall_back (record s { frame_alloc = some a' })
      ]
    ]

    -- The addresses of a cleared page below 4 GiB; `err` is a panic.
    unfoldable pub alloc_one_phys_page_hhdm : Frames → Bytes → Outcome ((ℕ × ℕ) × Frames × Bytes)
    alloc_one_phys_page_hhdm s mem = elim s.low32_alloc [
      | none ↦ err
      | some bump ↦ elim (allocate_frame reserved bump) [
        | none ↦ out_of_fuel
        | some (none, bump') ↦ err
        | some (some pa, bump') ↦
            let va = add64 pa s.offset in
            ok ((va, pa), record s { low32_alloc = some bump' }, write_zeros va 4096 mem)
      ]
    ]
