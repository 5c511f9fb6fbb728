-- ===== src/Mem/Mapping/Span.antt =====
-- `ensure_mapped_span` of jotunheimkernel/src/mem/mod.rs: every page of the span is mapped afterwards, and
-- no page that was mapped changes.
use jotunheim.Prelude.{
  ap, ℕ, zero, suc, ◌+◌, ◌-◌, ◌*◌, ◌/◌, ◌%◌, ◌≤◌, ◌<◌, ◌≡◌, refl, inl, inr, ◌⊎◌, true, false, none,
  ltb, arith, Option-cases, bit_and,
}
use jotunheim.Prelude.Words.{u64_mod, add64, not64, bit_and_page}
use jotunheim.Prelude.Outcome.{Meets, meets, failed, Meets-bind, Meets-map}
use jotunheim.Mem.Mapping.{
  FrameSource, Mapper, State, MapTo, mapped, already_mapped, refused, page_of, heap_flags, ensured,
  ensure_page, span_loop, ensure_mapped_span,
}
use jotunheim.Mem.Mapping.Pages.{Refusing, OnePage, Backed, Backed-nil, Backed-cons}

-- The number of pages that a span touches.
abbrev pub pages_of : ℕ → ℕ → ℕ
pages_of start end = (end + 4095) / 4096 - start / 4096

module _ (fs : FrameSource) (m : Mapper fs) where
  open fs use {Frames, allocate_frame}
  open m use {translate, map_to, map_to-mapped, map_to-already}

  -- No frame is left, or the tables can fail to map a page that is
  -- not mapped.
  abbrev pub Short : Type 0
  Short = ((f : Frames) × ((allocate_frame f).0 ≡ none)) ⊎ Refusing fs m

  -- A page that was not mapped, and now is.
  OnePage-Backed :
      (s s' : State fs m) (page frame : ℕ)
      → translate s.0 page ≡ none
      → OnePage fs m s page frame s'
      → Backed fs m s page 1 s'
  OnePage-Backed s s' page frame fresh one = (
    (λ q a b. ground (arith, one q)),
    (λ q h. ground (arith, one q, h)),
    (λ q h. ground (arith, one q)),
  )

  ensured-Backed :
      (va frame : ℕ) (s : State fs m) (frames : Frames) (r : MapTo × State fs m)
      → translate s.0 (page_of va) ≡ none
      → map_to (page_of va) frame heap_flags (s.0, frames) ≡ r
      → Meets Short (Backed fs m s (page_of va) 1) (ensured fs m va r)
  unfolding ensured
  ensured-Backed va frame s frames (mapped, s') fresh e = meets (
      OnePage-Backed s s' (page_of va) frame fresh
        (map_to-mapped (page_of va) frame heap_flags (s.0, frames) s' e))
  ensured-Backed va frame s frames (already_mapped, s') fresh e =
      absurd ((map_to-already (page_of va) frame heap_flags (s.0, frames) s' e).0 fresh)
  ensured-Backed va frame s frames (refused, s') fresh e =
      failed
        (inr (page_of va, frame, heap_flags, (s.0, frames), ap (λ (r : MapTo × State fs m). r.0) e))

  ensure_page-Backed :
      (va : ℕ) (s : State fs m) → Meets Short (Backed fs m s (page_of va) 1) (ensure_page fs m va s)
  unfolding ensure_page
  ensure_page-Backed va s = elim (Option-cases (translate s.0 (page_of va))) [
    | inr (frame, there) ↦
        rw (there, ensure_page)
          (meets (
            (λ q a b (e : translate s.0 q ≡ none). let same : q ≡ page_of va = omega arith in cc),
            (λ q h. refl),
            (λ q h. refl),
          ))
    | inl fresh ↦ elim (Option-cases (allocate_frame s.1).0) [
      | inl empty ↦ rw (fresh, ensure_page, empty) (failed (inl (s.1, empty)))
      | inr (frame, got) ↦
          rw (fresh, ensure_page, got)
            (ensured-Backed va frame s (allocate_frame s.1).1 _ fresh refl)
    ]
  ]

  span_loop-Backed :
      (fuel n va end : ℕ) (s : State fs m)
      → n < fuel
      → va % 4096 ≡ 0
      → end ≡ va + n * 4096
      → end < u64_mod
      → Meets Short (Backed fs m s (page_of va) n) (span_loop fs m fuel va end s)
  unfolding span_loop
  span_loop-Backed zero n va end s enough low last small = absurd (omega arith)
  span_loop-Backed (suc fuel) zero va end s enough low last small =
      let stop : ltb va end ≡ false = ground arith in
      rw stop (meets (Backed-nil fs m s (page_of va)))
  span_loop-Backed (suc fuel) (suc n) va end s enough low last small =
      let go : ltb va end ≡ true = ground arith in
      let va' : add64 va 4096 ≡ va + 4096 = omega arith in
      let page : page_of (va + 4096) ≡ page_of va + 1 = omega arith in
      rw go (
        Meets-bind (ensure_page-Backed va s) (λ s1 first. rw va' (
          Meets-map
            (span_loop-Backed fuel n (va + 4096) end s1 (omega arith) (omega arith) (omega arith)
              small)
            (λ s2 others. Backed-cons fs m s s1 s2 (page_of va) n first (rw page at others)))))

  pub ensure_mapped_span-Backed :
      (start end : ℕ) (s : State fs m)
      → start ≤ end
      → end + 4096 < u64_mod
      → Meets Short
          (Backed fs m s (page_of start) (pages_of start end))
          (ensure_mapped_span fs m start end s)
  unfolding ensure_mapped_span
  ensure_mapped_span-Backed start end s le small =
      let first : bit_and start (not64 0xfff) ≡ start - start % 4096 =
        bit_and_page start (omega arith) in
      let sum : add64 end 0xfff ≡ end + 0xfff = omega arith in
      let last : bit_and (end + 0xfff) (not64 0xfff) ≡ end + 0xfff - (end + 0xfff) % 4096 =
        bit_and_page (end + 0xfff) (omega arith) in
      let page : page_of (start - start % 4096) ≡ page_of start = omega arith in
      let loop =
        span_loop-Backed (suc (pages_of start end)) (pages_of start end) (start - start % 4096)
          (end + 0xfff - (end + 0xfff) % 4096) s (omega arith) (omega arith) (omega arith)
          (omega arith) in
      let rounds : (end + 0xfff - (end + 0xfff) % 4096 - (start - start % 4096)) / 4096
          ≡ pages_of start end =
        omega arith in
      rw (sum, first, last, rounds) (rw page at loop)
