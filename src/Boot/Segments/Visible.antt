-- ===== src/Boot/Segments/Visible.antt =====
-- The image as the kernel sees it: the segments in memory, through the page tables.
use jotunheim.Prelude.{ℕ, ◌+◌, ◌-◌, ◌%◌, ◌^◌, ◌≤◌, ◌<◌, ◌≡◌, sym, ◌∙◌, ap, some, arith}
use jotunheim.Prelude.Outcome.{Meets, Meets-map}
use jotunheim.Boot.Pages.{Firmware, Refused, Store}
use jotunheim.Boot.Paging.Walk.{page_number}
use jotunheim.Boot.Paging.Page.{view}
use jotunheim.Boot.Paging.Range.{page_base}
use jotunheim.Boot.Paging.Build.{build_pagetables_exec}
use jotunheim.Boot.Paging.Layout.{IsImage}
use jotunheim.Boot.Paging.Exec.{BesideHhdm, build_pagetables_exec-Ready}
use jotunheim.Boot.Segments.{ProgramHeader, Bytes, copy_segment}
use jotunheim.Boot.Segments.Copied.{IsStored, copy_segment-Loaded}

-- The byte that the processor reads at an address, through the tables below `root`.
abbrev pub Reads : (fw : Firmware) → Bytes → ℕ → ℕ → ℕ × Store fw → Type 0
Reads fw mem va byte (root, st) =
    (f : ℕ) × (view fw root st (page_number va) ≡ some f) × (mem (f + va % 4096) ≡ byte)

-- The page tables and a copied segment fit together: after a segment of the image was copied, the
-- tables that are built, unless the firmware can refuse a page, let the processor read, at each
-- virtual address of the segment's part in the file, the byte of the file that belongs there. The
-- image is as the page tables want it, the segment lies in it and its bytes in the file.
pub segment_visible :
    (fw : Firmware) (load_base lo hi ident_bytes phys_max : ℕ) (st : Store fw) (elf : Bytes)
    (elf_len : ℕ) (ph : ProgramHeader) (mem mem' : Bytes)
    → IsImage load_base lo hi
    → BesideHhdm lo hi
    → ident_bytes ≤ 2 ^ 47
    → phys_max ≤ 2 ^ 46
    → IsStored elf_len load_base lo hi ph
    → copy_segment elf elf_len load_base lo ph mem ≡ some mem'
    → Meets
        (Refused fw)
        (λ r.
          (i : ℕ) → i < ph.file_size → Reads fw mem' (ph.virtual_addr + i) (elf (ph.offset + i)) r)
        (build_pagetables_exec fw load_base lo hi ident_bytes phys_max st)
segment_visible fw load_base lo hi ident_bytes phys_max st elf elf_len ph mem mem' image beside hb
      hp s e =
    let (m, e', loaded) = copy_segment-Loaded elf elf_len load_base lo hi ph mem s in
    let same : m ≡ mem' = ground arith in
    Meets-map
      (build_pagetables_exec-Ready fw load_base lo hi ident_bytes phys_max st image beside hb hp)
      λ r ready i h.
        let va = ph.virtual_addr + i in
        let at : load_base + (page_base va - lo) + va % 4096
            ≡ load_base + (ph.virtual_addr - lo) + i =
          omega (arith, image.lo_page, s.above) in
        (
          load_base + (page_base va - lo),
          ready.0 va (omega (arith, s.above)) (omega (arith, s.below, s.longer)),
          rw at (
              ap (λ (b : Bytes). b (load_base + (ph.virtual_addr - lo) + i)) (sym same)
              ∙ loaded.0 i h),
        )
