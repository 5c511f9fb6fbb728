-- ===== src/Boot/Segments.antt =====
-- The kernel's image in jotunboot/src/main.rs: the extent of the loadable segments, the place that is
-- taken for them, and the copy. The ELF file is read by another crate: a program header is what the
-- code asks of it. `none` is the panic of a slice out of range, or the end by `die`.
pub mod Extent
pub mod Copied
pub mod Visible
use jotunheim.Prelude.{
  ℕ, zero, suc, ◌+◌, ◌-◌, ◌*◌, ◌/◌, ◌%◌, ◌^◌, Bool, true, false, not, Option, none, some, List, [],
  ◌∷◌, ◌==◌, ◌&&◌, ltb, leb, if◌then◌else◌, ◌>>=◌,
}
use jotunheim.Prelude.Words.{u64_max, add64, sub64}
use jotunheim.Boot.{align_up}
use jotunheim.Boot.Paging.Build.{min, max}

pub record ProgramHeader : Type 0 where
  pub is_load : Bool
  pub virtual_addr : ℕ
  pub mem_size : ℕ
  pub file_size : ℕ
  pub offset : ℕ
  pub align : ℕ

-- The lowest address, the end and the largest alignment so far.
pub record Layout : Type 0 where
  pub min_vaddr : ℕ
  pub max_vaddr : ℕ
  pub max_align : ℕ

abbrev pub extend : ProgramHeader → Layout → Layout
extend ph l = record {
  min_vaddr = min l.min_vaddr ph.virtual_addr;
  max_vaddr = max l.max_vaddr (align_up (add64 ph.virtual_addr ph.mem_size) 0x1000);
  max_align = max l.max_align (max ph.align 0x1000);
}

-- A header counts where it is loadable and not empty.
abbrev pub counts : ProgramHeader → Bool
counts ph = ph.is_load && not (ph.mem_size == 0)

unfoldable pub layout_loop : List ProgramHeader → Layout → Layout
layout_loop [] l = l
layout_loop (ph ∷ phs) l = layout_loop phs (if counts ph then extend ph l else l)

unfoldable pub layout : List ProgramHeader → Option Layout
layout phs =
    let l = layout_loop phs (record { min_vaddr = u64_max; max_vaddr = 0; max_align = 0 }) in
    if l.min_vaddr == u64_max then none else some l

abbrev pub total_size : Layout → ℕ
total_size l = l.max_vaddr - l.min_vaddr

-- How many pages are asked of the firmware for the image.
abbrev pub image_pages : Layout → ℕ
image_pages l = (total_size l + l.max_align + 0x1000 + 0xfff) / 0x1000

abbrev pub load_base_of : Layout → ℕ → ℕ
load_base_of l raw_base = align_up raw_base l.max_align

-- Memory by address.
abbrev pub Bytes : Type 0
Bytes = ℕ → ℕ

-- `ptr::write_bytes(dst, 0, n)`
abbrev pub clear : ℕ → ℕ → Bytes → Bytes
clear dst n mem a = if leb dst a && ltb a (dst + n) then 0 else mem a

-- `ptr::copy_nonoverlapping(src, dst, n)`
abbrev pub copy : (src : Bytes) → ℕ → ℕ → ℕ → Bytes → Bytes
copy src off dst n mem a = if leb dst a && ltb a (dst + n) then src (off + (a - dst)) else mem a

-- One segment: the bytes of the file, then zeros.
unfoldable pub copy_segment :
    (elf : Bytes) (elf_len load_base min_vaddr : ℕ) → ProgramHeader → Bytes → Option Bytes
copy_segment elf elf_len load_base min_vaddr ph mem =
    let dst = add64 load_base (sub64 ph.virtual_addr min_vaddr) in
    let copied =
      if ltb 0 ph.file_size
      then if leb (ph.offset + ph.file_size) elf_len
        then some (copy elf ph.offset dst ph.file_size mem)
        else none
      else some mem in
    copied >>= λ mem'. some (
      if ltb ph.file_size ph.mem_size
      then clear (dst + ph.file_size) (ph.mem_size - ph.file_size) mem'
      else mem')

unfoldable pub copy_segments :
    (elf : Bytes) (elf_len load_base min_vaddr : ℕ) → List ProgramHeader → Bytes → Option Bytes
copy_segments elf elf_len load_base min_vaddr [] mem = some mem
copy_segments elf elf_len load_base min_vaddr (ph ∷ phs) mem =
    (if counts ph then copy_segment elf elf_len load_base min_vaddr ph mem else some mem)
    >>= copy_segments elf elf_len load_base min_vaddr phs

-- The image's place is cleared, and the segments are copied into it; `raw_base` is where the firmware
-- put the pages.
unfoldable pub load_image :
    (elf : Bytes) (elf_len raw_base : ℕ) → Layout → List ProgramHeader → Bytes → Option (ℕ × Bytes)
load_image elf elf_len raw_base l phs mem =
    let load_base = load_base_of l raw_base in
    copy_segments elf elf_len load_base l.min_vaddr phs (clear load_base (total_size l) mem)
    >>= λ mem'. some (load_base, mem')
