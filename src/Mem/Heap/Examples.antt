-- ===== src/Mem/Heap/Examples.antt =====
-- A heap of blocks one behind the other, and the theorems on the kernel's heap with it.
use jotunheim.Prelude.{
  ℕ, ◌+◌, ◌^◌, ◌≤◌, ◌<◌, ◌≡◌, ◌≢◌, refl, ltb, leb, Option, none, some, if◌then◌else◌, arith,
}
use jotunheim.Prelude.Outcome.{Meets}
use jotunheim.Mem.Mapping.{page_of}
use jotunheim.Mem.Mapping.Span.{Short}
use jotunheim.Mem.Heap.{Layout, ListHeap, Paging, alloc}
use jotunheim.Mem.Heap.Growth.{BlockMapped, alloc-BlockMapped, alloc_null}
use jotunheim.Mem.Mapping.Tables.{endless, tables, nothing_mapped}

-- A heap that gives its blocks one behind the other, and takes none back.
abbrev heap_end : ℕ
heap_end = 0xffff_c000_0200_0000

give : Layout → ℕ → Option ℕ × ℕ
give l next =
    let end = next + (if ltb l.size 1 then 1 else l.size) in
    if leb end heap_end then (some next, end) else (none, next)

give-within :
    (l : Layout) (h h' p : ℕ)
    → give l h ≡ (some p, h')
    → p + (if ltb l.size 1 then 1 else l.size) ≤ heap_end
unfolding give
give-within l h h' p e = ground arith

give-unchanged : (l : Layout) (h h' : ℕ) → give l h ≡ (none, h') → h' ≡ h
unfolding give
give-unchanged l h h' e = ground arith

abbrev blocks : ListHeap
blocks = record {
  Heap = ℕ;
  top = λ h. heap_end;
  allocate_first_fit = give;
  deallocate = λ p l h. h;
  within = give-within;
  unchanged = give-unchanged;
}

abbrev paging : ℕ → Paging endless tables blocks
paging next = record { inner = next; mapped_end = 0xffff_c000_0000_0000; space = nothing_mapped }

alloc-BlockMapped_example :
    Meets
      (Short endless tables)
      (BlockMapped endless tables blocks
        (record { size = 100; align = 8 })
        (paging 0xffff_c000_0000_0ff0))
      (alloc endless tables blocks
        (record { size = 100; align = 8 })
        (paging 0xffff_c000_0000_0ff0))
alloc-BlockMapped_example =
    alloc-BlockMapped endless tables blocks (record { size = 100; align = 8 })
      (paging 0xffff_c000_0000_0ff0) (λ h. omega arith) (omega arith)

full_heap : (give (record { size = 100; align = 8 }) heap_end).0 ≡ none
unfolding give
full_heap = refl

alloc_null_example :
    Meets
      (Short endless tables)
      (λ (r : Option ℕ × Paging endless tables blocks).
        (r.0 ≡ none)
        × (r.1.inner ≡ heap_end)
        × (r.1.mapped_end ≡ 0xffff_c000_0000_0000 + 2 ^ 20)
        × ((y : ℕ) → y < 2 ^ 20 → r.1.space.0 (page_of (0xffff_c000_0000_0000 + y)) ≢ none))
      (alloc endless tables blocks (record { size = 100; align = 8 }) (paging heap_end))
alloc_null_example =
    alloc_null endless tables blocks (record { size = 100; align = 8 }) (paging heap_end) full_heap
      (omega arith)
