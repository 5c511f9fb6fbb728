-- ===== src/Mem/Heap.antt =====
-- The kernel's heap: `PagingHeap` of jotunheimkernel/src/mem/mod.rs, over the allocator of another crate,
-- and `init_heap`. A null pointer is `none`; `err` is a panic.
pub mod Growth
mod Examples
use jotunheim.Prelude.{
  ℕ, zero, suc, ◌+◌, ◌*◌, ◌/◌, ◌^◌, ◌≤◌, ◌≡◌, Option, none, some, ltb, if◌then◌else◌,
}
use jotunheim.Prelude.Words.{u64_mod, add64, saturating_add}
use jotunheim.Prelude.Outcome.{Outcome, ok, err, out_of_fuel, ◌>>=◌}
use jotunheim.Mem.Mapping.{FrameSource, Mapper, State, heap_flags, map_4k, ensure_mapped_span}

abbrev pub kheap_start : ℕ
kheap_start = 0xffff_c000_0000_0000

abbrev pub kheap_size : ℕ
kheap_size = 32 * 1024 * 1024

pub record Layout : Type 0 where
  pub size : ℕ
  pub align : ℕ

-- `linked_list_allocator::Heap`: a block that it gives lies in the region that it was given, and a
-- request that it cannot meet changes nothing.
pub record ListHeap : Type 1 where
  pub Heap : Type 0
  pub top : Heap → ℕ
  pub allocate_first_fit : Layout → Heap → Option ℕ × Heap
  pub deallocate : ℕ → Layout → Heap → Heap
  pub within :
      (l : Layout) (h h' : Heap) (p : ℕ)
      → allocate_first_fit l h ≡ (some p, h')
      → p + (if ltb l.size 1 then 1 else l.size) ≤ top h
  pub unchanged : (l : Layout) (h h' : Heap) → allocate_first_fit l h ≡ (none, h') → h' ≡ h

module _ (fs : FrameSource) (m : Mapper fs) (lh : ListHeap) where
  open lh use {Heap, allocate_first_fit, deallocate}

  -- `PagingHeap`, with the page tables and the frames.
  pub record Paging : Type 0 where
    pub inner : Heap
    pub mapped_end : ℕ
    pub space : State fs m

  -- `layout.size().max(1)`
  abbrev pub touched : Layout → ℕ
  touched l = if ltb l.size 1 then 1 else l.size

  -- The end of an allocation that found a block.
  unfoldable pub back_block : Layout → ℕ → Paging → Outcome (Option ℕ × Paging)
  back_block l p s = ensure_mapped_span fs m p (saturating_add p (touched l)) s.space >>= λ space.
      ok (some p, record s { space = space })

  -- The second attempt, after the span was grown.
  unfoldable pub retry : Layout → Paging → Outcome (Option ℕ × Paging)
  retry l s =
      let (found, inner) = allocate_first_fit l s.inner in
      elim found [
        | none ↦ ok (none, record s { inner = inner })
        | some p ↦ back_block l p (record s { inner = inner })
      ]

  unfoldable pub grow : Paging → Outcome Paging
  grow s =
      let end = saturating_add s.mapped_end (2 ^ 20) in
      ensure_mapped_span fs m s.mapped_end end s.space >>= λ space.
      ok (record s { mapped_end = end; space = space })

  unfoldable pub alloc : Layout → Paging → Outcome (Option ℕ × Paging)
  alloc l s =
      let (found, inner) = allocate_first_fit l s.inner in
      elim found [
        | some p ↦ back_block l p (record s { inner = inner })
        | none ↦ grow (record s { inner = inner }) >>= retry l
      ]

  unfoldable pub dealloc : ℕ → Layout → Paging → Paging
  dealloc p l s = record s { inner = deallocate p l s.inner }

  -- The loop of `init_heap`: the pages left, and the page.
  unfoldable pub heap_loop : ℕ → ℕ → State fs m → Outcome (State fs m)
  heap_loop zero i s = ok s
  heap_loop (suc left) i s =
      let (pf, frames) = fs.allocate_frame s.1 in
      elim pf [
        | none ↦ err
        | some frame ↦
            map_4k fs m (add64 kheap_start (i * 4096)) frame heap_flags (s.0, frames)
            >>= heap_loop left (suc i)
      ]

  -- `init_heap`; `fresh start size` is the allocator's own state at the start.
  unfoldable pub init_heap : (ℕ → ℕ → Heap) → State fs m → Outcome Paging
  init_heap fresh s = heap_loop ((kheap_size + 4095) / 4096) 0 s >>= λ space.
      ok (record { inner = fresh kheap_start kheap_size; mapped_end = kheap_start; space = space })
