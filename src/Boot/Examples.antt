-- ===== src/Boot/Examples.antt =====
-- Runs of the page table routines, and the theorems at inputs that meet their hypotheses.
use jotunheim.Prelude.{
  ℕ, suc, ◌*◌, ◌^◌, ◌<◌, ◌≡◌, refl, inl, inr, Option, none, some, arith, ltb, if◌then◌else◌,
  Bool-cases,
}
use jotunheim.Prelude.Words.{sub64}
use jotunheim.Prelude.Lists.{All}
use jotunheim.Prelude.{[], ◌∷◌, true, ◌+◌, ◌%◌}
use jotunheim.Boot.Segments.{ProgramHeader, layout, layout_loop, Bytes, copy_segment}
use jotunheim.Boot.Segments.Extent.{Inside, layout-Inside}
use jotunheim.Boot.Segments.Copied.{IsStored, copy_segment-Loaded}
use jotunheim.Boot.Segments.Visible.{Reads, segment_visible}
use jotunheim.Prelude.Outcome.{Outcome, ok, err, out_of_fuel, Meets}
use jotunheim.Boot.Pages.{Firmware, AllocateType, Refused, Store, take_page}
use jotunheim.Boot.Paging.{map_4k_offset, map_4k_loop, map_4k_round, ensure_tables, ensure_table}
use jotunheim.Boot.Paging.Page.{view}
use jotunheim.Boot.Paging.Start.{fresh, root_only, fresh-Shape}
use jotunheim.Boot.Paging.Range.{Small, Mapped, map_4k_offset_refines}
use jotunheim.Boot.Paging.Walk.{page_number, walk}
use jotunheim.Boot.Paging.Layout.{IsImage}
use jotunheim.Boot.Paging.Build.{build_pagetables_exec}
use jotunheim.Boot.Paging.Exec.{Ready, build_pagetables_exec-Ready}

-- Firmware that hands out the pages from 4 MiB on, one after the other, up to the last frame.
abbrev next_page : AllocateType → ℕ → Option (ℕ × ℕ)
next_page k n = if ltb n (2 ^ 40) then some (n * 4096, suc n) else none

next_page-room :
    (k : AllocateType) (n n' p : ℕ)
    → next_page k n ≡ some (p, n')
    → (n < 2 ^ 40) × (p ≡ n * 4096) × (n' ≡ suc n)
next_page-room k n n' p e = elim (Bool-cases (ltb n (2 ^ 40))) [
  | inl room ↦ (ground arith, ground arith, ground arith)
  | inr full ↦ absurd (ground arith)
]

abbrev in_order : Firmware
in_order = record {
  State = ℕ;
  allocate = next_page;
  Taken = λ n p. p < n * 4096;
  allocate-fresh = λ k n n' p e taken. omega (arith, next_page-room k n n' p e);
  allocate-taken = λ k n n' p e. omega (arith, next_page-room k n n' p e);
  allocate-keeps = λ k n n' p q e taken. omega (arith, next_page-room k n n' p e);
  allocate-page = λ k n n' p e.
      (omega (arith, next_page-room k n n' p e), omega (arith, next_page-room k n n' p e));
}

abbrev start : Store in_order
start = record { firmware = 1024; mem = λ p i. 0 }

-- An image of three pages at 1 MiB, loaded at 32 MiB.
image : IsImage 0x2000000 0x100000 0x103000
image = record {
  load_page = refl;
  lo_page = refl;
  hi_page = refl;
  not_empty = omega arith;
  half = inl (omega arith);
  top = omega arith;
  frames = omega arith;
}

build_pagetables_exec-Ready_example :
    Meets
      (Refused in_order)
      (Ready in_order 0x2000000 0x100000 0x103000 0x40000000 0x80001000)
      (build_pagetables_exec in_order 0x2000000 0x100000 0x103000 0x40000000 0x80001000 start)
build_pagetables_exec-Ready_example =
    build_pagetables_exec-Ready in_order 0x2000000 0x100000 0x103000 0x40000000 0x80001000 start
      image (inl (omega arith)) (omega arith) (omega arith)

-- A PML4 alone, in the page at 4 MiB.
abbrev one_table : Store in_order
one_table = fresh in_order Small tt 1024 1025 (λ p i. 0) 0x400000 refl

frame_of : Outcome (Store in_order) → ℕ → Option ℕ
frame_of (ok st) va = view in_order 0x400000 st (page_number va)
frame_of err va = none
frame_of out_of_fuel va = none

map_4k_runs :
    frame_of (map_4k_offset in_order 0x400000 0x7fff 0x8001 0x1000 one_table) 0x8000 ≡ some 0x9000
unfolding frame_of map_4k_offset map_4k_loop map_4k_round ensure_tables ensure_table take_page walk
map_4k_runs = refl

-- An image whose lowest address is no page boundary: the frame before the one that it is loaded to.
unaligned_image :
    frame_of
      (map_4k_offset in_order 0x400000 0x100800 0x102000 (sub64 0x2000000 0x100800) one_table)
      0x100800
    ≡ some 0x1fff000
unfolding frame_of map_4k_offset map_4k_loop map_4k_round ensure_tables ensure_table take_page walk
unaligned_image = refl

map_4k_offset_refines_example :
    Meets
      (Refused in_order)
      (Mapped in_order Small 0x400000 one_table 0x7000 0x9000 0x1000)
      (map_4k_offset in_order 0x400000 0x7fff 0x8001 0x1000 one_table)
map_4k_offset_refines_example =
    map_4k_offset_refines in_order 0x400000 0x7fff 0x8001 0x1000 one_table (omega arith)
      (omega arith) (omega arith)
      (
        root_only in_order Small tt 1024 1025 (λ p i. 0) 0x400000 refl,
        fresh-Shape in_order Small tt 1024 1025 (λ p i. 0) 0x400000 refl,
      )

-- A segment of five bytes in the file and a page in memory, and an empty one.
abbrev text : ProgramHeader
text = record {
  is_load = true;
  virtual_addr = 0x100000;
  mem_size = 0x1000;
  file_size = 5;
  offset = 64;
  align = 0x1000;
}

abbrev empty_segment : ProgramHeader
empty_segment = record text { mem_size = 0; file_size = 0 }

layout_runs :
    layout (text ∷ empty_segment ∷ [])
    ≡ some (record { min_vaddr = 0x100000; max_vaddr = 0x101000; max_align = 0x1000 })
unfolding layout layout_loop
layout_runs = refl

layout-Inside_example :
    All
      (Inside (record { min_vaddr = 0x100000; max_vaddr = 0x101000; max_align = 0x1000 }))
      (text ∷ empty_segment ∷ [])
    × (0x100000 < 0x101000)
    × (0x101000 % 4096 ≡ 0)
layout-Inside_example =
    layout-Inside (text ∷ empty_segment ∷ [])
      (record { min_vaddr = 0x100000; max_vaddr = 0x101000; max_align = 0x1000 })
      (omega arith, (omega arith, tt)) layout_runs

text-IsStored : IsStored 128 0x2000000 0x100000 0x103000 text
text-IsStored = record {
  above = omega arith;
  below = omega arith;
  stored = omega arith;
  longer = omega arith;
  top = omega arith;
  place = omega arith;
}

-- Every byte of the file is its own offset.
abbrev file : Bytes
file a = a

copied : (mem' : Bytes) × (copy_segment file 128 0x2000000 0x100000 text (λ a. 0) ≡ some mem')
copied =
    let (mem', e, loaded) =
      copy_segment-Loaded file 128 0x2000000 0x100000 0x103000 text (λ a. 0) text-IsStored in
    (mem', e)

segment_visible_example :
    Meets
      (Refused in_order)
      (λ r. (i : ℕ) → i < 5 → Reads in_order copied.0 (0x100000 + i) (64 + i) r)
      (build_pagetables_exec in_order 0x2000000 0x100000 0x103000 0x40000000 0x80001000 start)
segment_visible_example =
    segment_visible in_order 0x2000000 0x100000 0x103000 0x40000000 0x80001000 start file 128 text
      (λ a. 0) copied.0 image (inl (omega arith)) (omega arith) (omega arith) text-IsStored copied.1
