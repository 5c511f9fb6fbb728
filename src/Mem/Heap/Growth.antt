-- ===== src/Mem/Heap/Growth.antt =====
-- What an allocation of the kernel's heap leaves mapped, and what a failed one does:
-- `PagingHeap::alloc` of jotunheimkernel/src/mem/mod.rs.
use jotunheim.Prelude.{
  ℕ, ◌+◌, ◌^◌, ◌<◌, ◌≡◌, ◌≢◌, refl, sym, ap, ◌∙◌, Option, none, some, arith, Option-cases, inl, inr,
}
use jotunheim.Prelude.Words.{u64_mod, saturating_add}
use jotunheim.Prelude.Outcome.{Meets, meets, Meets-bind, Meets-map}
use jotunheim.Mem.Mapping.{FrameSource, Mapper, page_of}
use jotunheim.Mem.Mapping.Span.{Short, pages_of, ensure_mapped_span-Backed}
use jotunheim.Mem.Mapping.Pages.{Backed}
use jotunheim.Mem.Heap.{Layout, ListHeap, Paging, touched, back_block, retry, grow, alloc}

module _ (fs : FrameSource) (m : Mapper fs) (lh : ListHeap) where
  open lh use {allocate_first_fit}
  open m use {translate}

  -- Every byte of the block lies in a page that is mapped, and no page that was mapped leads elsewhere.
  abbrev pub BlockMapped : Layout → Paging fs m lh → Option ℕ × Paging fs m lh → Type 0
  BlockMapped l s (found, s') =
      ((p y : ℕ)
        → found ≡ some p
        → y < touched fs m lh l
        → translate s'.space.0 (page_of (p + y)) ≢ none)
      × ((q : ℕ) → translate s.space.0 q ≢ none → translate s'.space.0 q ≡ translate s.space.0 q)

  back_block-BlockMapped :
      (l : Layout) (p : ℕ) (s : Paging fs m lh)
      → p + touched fs m lh l + 4096 < u64_mod
      → Meets (Short fs m) (BlockMapped l s) (back_block fs m lh l p s)
  unfolding back_block
  back_block-BlockMapped l p s small =
      let end : saturating_add p (touched fs m lh l) ≡ p + touched fs m lh l = ground arith in
      rw end (
        Meets-bind
          (ensure_mapped_span-Backed fs m p (p + touched fs m lh l) s.space (omega arith) small)
          (λ space (there, kept, out). meets (
            (λ p' y e h.
                let same : p ≡ p' = cc in there (page_of (p' + y)) (omega arith) (omega arith)),
            kept,
          )))

  block_fits :
      (l : Layout) (h : lh.Heap) (p : ℕ)
      → lh.top h + 4096 < u64_mod
      → (allocate_first_fit l h).0 ≡ some p
      → p + touched fs m lh l + 4096 < u64_mod
  block_fits l h p small found =
      let whole : allocate_first_fit l h ≡ (some p, (allocate_first_fit l h).1) =
        ap (λ (o : Option ℕ). (o, (allocate_first_fit l h).1)) found in
      omega (arith, lh.within l h (allocate_first_fit l h).1 p whole)

  heap_unchanged :
      (l : Layout) (h : lh.Heap)
      → (allocate_first_fit l h).0 ≡ none
      → (allocate_first_fit l h).1 ≡ h
  heap_unchanged l h missing =
      lh.unchanged l h (allocate_first_fit l h).1
        (ap (λ (o : Option ℕ). (o, (allocate_first_fit l h).1)) missing)

  retry-BlockMapped :
      (l : Layout) (s : Paging fs m lh)
      → lh.top s.inner + 4096 < u64_mod
      → Meets (Short fs m) (BlockMapped l s) (retry fs m lh l s)
  unfolding retry
  retry-BlockMapped l s small = elim (Option-cases (allocate_first_fit l s.inner).0) [
    | inl missing ↦ rw (missing, retry) (meets ((λ p y e. cc), (λ q h. refl)))
    | inr (p, found) ↦
        rw (found, retry)
          (back_block-BlockMapped l p (record s { inner = (allocate_first_fit l s.inner).1 })
            (block_fits l s.inner p small found))
  ]

  -- What growing leaves.
  abbrev pub Grown : Paging fs m lh → Paging fs m lh → Type 0
  Grown s s' =
      (s'.inner ≡ s.inner)
      × (s'.mapped_end ≡ s.mapped_end + 2 ^ 20)
      × Backed fs m s.space (page_of s.mapped_end) (pages_of s.mapped_end (s.mapped_end + 2 ^ 20))
          s'.space

  grow-Grown :
      (s : Paging fs m lh)
      → s.mapped_end + 2 ^ 20 + 4096 < u64_mod
      → Meets (Short fs m) (Grown s) (grow fs m lh s)
  unfolding grow
  grow-Grown s small =
      let end : saturating_add s.mapped_end (2 ^ 20) ≡ s.mapped_end + 2 ^ 20 = ground arith in
      rw end (
        Meets-bind
          (ensure_mapped_span-Backed fs m s.mapped_end (s.mapped_end + 2 ^ 20) s.space (omega arith)
            small)
          (λ space backed. meets (refl, refl, backed)))

  -- An allocation ends, and panics only where no frame is left or the tables can fail to map a page that
  -- is not mapped. Every byte of a block that it gives lies in a page that is mapped, and no page that was
  -- mapped leads elsewhere. The heap ends more than a page below the end of the address space, and
  -- `mapped_end` more than a MiB and a page.
  pub alloc-BlockMapped :
      (l : Layout) (s : Paging fs m lh)
      → ((h : lh.Heap) → lh.top h + 4096 < u64_mod)
      → s.mapped_end + 2 ^ 20 + 4096 < u64_mod
      → Meets (Short fs m) (BlockMapped l s) (alloc fs m lh l s)
  unfolding alloc
  alloc-BlockMapped l s heap small = elim (Option-cases (allocate_first_fit l s.inner).0) [
    | inr (p, found) ↦
        rw (found, alloc)
          (back_block-BlockMapped l p (record s { inner = (allocate_first_fit l s.inner).1 })
            (block_fits l s.inner p (heap s.inner) found))
    | inl missing ↦
        rw (missing, alloc)
          (Meets-bind (grow-Grown (record s { inner = (allocate_first_fit l s.inner).1 }) small)
            (λ s1 (same, end, (there, kept, out)).
              Meets-map (retry-BlockMapped l s1 (heap s1.inner)) (λ r (block, kept').
                (block, λ q h. kept' q (λ e. h (sym (kept q h) ∙ e)) ∙ kept q h))))
  ]

  -- An allocation for which the heap has no block: it ends, and panics only where no frame is left or
  -- the tables can fail to map a page that is not mapped. The retry fails as well, since the heap itself
  -- does not grow: null is returned, with the next MiB behind `mapped_end` mapped, and `mapped_end` moved
  -- behind it. `mapped_end` is more than a MiB and a page below the end of the address space.
  pub alloc_null :
      (l : Layout) (s : Paging fs m lh)
      → (allocate_first_fit l s.inner).0 ≡ none
      → s.mapped_end + 2 ^ 20 + 4096 < u64_mod
      → Meets
          (Short fs m)
          (λ r.
            (r.0 ≡ none)
            × (r.1.inner ≡ s.inner)
            × (r.1.mapped_end ≡ s.mapped_end + 2 ^ 20)
            × ((y : ℕ) → y < 2 ^ 20 → translate r.1.space.0 (page_of (s.mapped_end + y)) ≢ none))
          (alloc fs m lh l s)
  unfolding alloc retry
  alloc_null l s none_left small =
      let s0 = record s { inner = (allocate_first_fit l s.inner).1 } in
      rw (none_left, alloc)
        (Meets-bind (grow-Grown s0 small) (λ s1 (same, end, (there, kept, out)).
          let heap : s1.inner ≡ s.inner = same ∙ heap_unchanged l s.inner none_left in
          let again : (allocate_first_fit l s1.inner).0 ≡ none =
            ap (λ (h : lh.Heap). (allocate_first_fit l h).0) heap ∙ none_left in
          rw (again, retry)
            (meets (
              refl,
              heap_unchanged l s1.inner again ∙ heap,
              end,
              (λ y h. there (page_of (s.mapped_end + y)) (omega arith) (omega arith)),
            ))))
