-- ===== src/Mem/Mapping/Mmio.antt =====
-- `map_mmio` of jotunheimkernel/src/mem/mod.rs: the window that it makes.
use jotunheim.Prelude.{
  Bool, none, ℕ, zero, suc, ◌+◌, ◌-◌, ◌*◌, ◌/◌, ◌%◌, ◌^◌, ◌≤◌, ◌<◌, ◌≡◌, ap, ◌∙◌, ◌⊎◌, true, false,
  some, ltb, leb, ◌&&◌, arith, bit_and,
}
use jotunheim.Prelude.Bits.{bit_and-low}
use jotunheim.Prelude.Words.{u64_mod, add64, sub64, not64, bit_and_page}
use jotunheim.Prelude.Outcome.{Meets, meets, Meets-bind, Meets-map}
use jotunheim.Mem.Mapping.{
  is_canonical, FrameSource, Mapper, State, pa_mask_52, page_of, mmio_flags, mmio_loop, map_mmio,
}
use jotunheim.Mem.Mapping.Pages.{Refusing, Fresh, Fresh-tail, unwrap-OnePage, Window, Window-cons}

pub pa_mask_52-lt : (x : ℕ) → x < 2 ^ 52 → pa_mask_52 x ≡ x
unfolding pa_mask_52
pa_mask_52-lt x h = ground (arith, bit_and-low 52 0 x)

module _ (fs : FrameSource) (m : Mapper fs) where
  open m use {translate}

  -- The result of `map_mmio`: each byte of the registers is where the address says, the pages from
  -- `next` on up to the new `NEXT_MMIO_VA` are the window, and the others as before.
  abbrev pub Registers : (pa len next : ℕ) → State fs m → ℕ × ℕ × State fs m → Type 0
  Registers pa len next s (va, next', s') =
      ((y : ℕ)
        → y < len
        → (translate s'.0 (page_of (va + y)) ≡ some (pa + y - (pa + y) % 4096))
          × ((va + y) % 4096 ≡ (pa + y) % 4096)
          × (next ≤ va + y)
          × (va + y < next'))
      × ((q : ℕ) → (q * 4096 < next) ⊎ (next' ≤ q * 4096) → translate s'.0 q ≡ translate s.0 q)
      × (next' % 4096 ≡ 0)

  mmio_loop-Window :
      (fuel n pa pend va : ℕ) (s : State fs m)
      → n < fuel
      → va % 4096 ≡ 0
      → pend ≡ pa + n * 4096
      → pend < 2 ^ 53
      → va + n * 4096 < u64_mod
      → 2 ^ 64 - 2 ^ 47 ≤ va
      → Fresh fs m s (page_of va) n
      → Meets (Refusing fs m) (Window fs m s (page_of va) n pa) (mmio_loop fs m fuel pa pend va s)
  unfolding mmio_loop
  mmio_loop-Window zero n pa pend va s enough low end small fits upper fresh = absurd (omega arith)
  mmio_loop-Window (suc fuel) zero pa pend va s enough low end small fits upper fresh =
      let stop : ltb pa pend ≡ false = ground arith in rw stop (meets (λ q. ground arith))
  mmio_loop-Window (suc fuel) (suc n) pa pend va s enough low end small fits upper fresh =
      let go : ltb pa pend ≡ true = ground arith in
      let canonical : is_canonical va ≡ true = ground arith in
      let pa' : add64 pa 0x1000 ≡ pa + 4096 = omega arith in
      let va' : add64 va 0x1000 ≡ va + 4096 = omega arith in
      let page : page_of (va + 4096) ≡ page_of va + 1 = omega arith in
      rw (go, canonical)
        (Meets-bind
          (unwrap-OnePage fs m (page_of va) pa mmio_flags s
            (fresh (page_of va) (omega arith) (omega arith)))
          (λ s1 first.
            rw (pa', va')
              (Meets-map
                (mmio_loop-Window fuel n (pa + 4096) pend (va + 4096) s1 (omega arith) (omega arith)
                  (omega arith) small (omega arith) (omega arith)
                  (rw page (Fresh-tail fs m s s1 (page_of va) n pa fresh first)))
                (λ s2 others.
                  Window-cons fs m s s1 s2 (page_of va) n pa first (rw page at others)))))

  -- A byte of the registers within a window of `n` pages.
  Window-byte :
      (pa n next y : ℕ) (s s' : State fs m)
      → next % 4096 ≡ 0
      → pa % 4096 + y < n * 4096
      → Window fs m s (page_of next) n (pa - pa % 4096) s'
      → translate s'.0 (page_of (next + pa % 4096 + y)) ≡ some (pa + y - (pa + y) % 4096)
  Window-byte pa n next y s s' low inside window =
      let q = page_of (next + pa % 4096 + y) in
      let within : (leb (page_of next) q && ltb q (page_of next + n)) ≡ true = ground arith in
      let frame : pa - pa % 4096 + (q - page_of next) * 4096 ≡ pa + y - (pa + y) % 4096 =
        omega arith in
      rw (within, frame) at (window q)

  Window-outside :
      (lo n pa q : ℕ) (s s' : State fs m)
      → (q < lo) ⊎ (lo + n ≤ q)
      → Window fs m s lo n pa s'
      → translate s'.0 q ≡ translate s.0 q
  Window-outside lo n pa q s s' out window =
      let without : (leb lo q && ltb q (lo + n)) ≡ false = ground arith in rw without at (window q)

  -- `map_mmio` ends, and panics only where the tables can fail to map a page that is not mapped. The address that it
  -- returns then leads, byte for byte, to the registers from `pa` on, and no page outside of the
  -- window changes; the next window begins behind this one. The registers lie below 2^52, the windows
  -- begin on a page boundary in the upper half, `FRAME_ALLOC` is seeded, and this window ends before the end of the address space, with no page of it
  -- mapped, up to two pages behind the registers.
  pub map_mmio-Window :
      (seeded : Bool) (pa len next : ℕ) (s : State fs m)
      → seeded ≡ true
      → 2 ^ 64 - 2 ^ 47 ≤ next
      → pa + len + 0xfff < 2 ^ 52
      → next % 4096 ≡ 0
      → next + len + 0x2000 < u64_mod
      → ((q : ℕ) → next ≤ q * 4096 → q * 4096 < next + len + 0x2000 → translate s.0 q ≡ none)
      → Meets (Refusing fs m) (Registers pa len next s) (map_mmio fs m seeded pa len next s)
  unfolding map_mmio
  map_mmio-Window seeded pa len next s ready upper small low fits fresh =
      let pa0 = pa - pa % 4096 in
      let above = pa + len + 0xfff in
      let pend = above - above % 4096 in
      let n = (pend - pa0) / 4096 in
      let first : bit_and (pa_mask_52 pa) (not64 0xfff) ≡ pa0 =
        ap (λ (x : ℕ). bit_and x (not64 0xfff)) (pa_mask_52-lt pa (omega arith))
        ∙ bit_and_page pa (omega arith) in
      let sum : add64 (add64 pa len) 0xfff ≡ above = omega arith in
      let last : bit_and (pa_mask_52 (add64 (add64 pa len) 0xfff)) (not64 0xfff) ≡ pend =
        ap (λ (x : ℕ). bit_and (pa_mask_52 x) (not64 0xfff)) sum
        ∙ ap (λ (x : ℕ). bit_and x (not64 0xfff)) (pa_mask_52-lt above small)
        ∙ bit_and_page above (omega arith) in
      let size : sub64 pend pa0 ≡ n * 4096 = omega arith in
      let off : sub64 pa pa0 ≡ pa % 4096 = omega arith in
      let rounds : n * 4096 / 4096 ≡ n = omega arith in
      rw (ready, first, last, size, off, rounds)
        (Meets-bind
          (mmio_loop-Window (suc n) n pa0 pend next s (omega arith) low (omega arith) (omega arith)
            (omega arith) upper (λ q a b. fresh q (omega arith) (omega arith)))
          (λ s' window. meets (
            (λ y h.
                let va : add64 next (pa % 4096) ≡ next + pa % 4096 = omega arith in
                (
                  rw va (Window-byte pa n next y s s' low (omega arith) window),
                  omega arith,
                  omega arith,
                  omega arith,
                )),
            (λ q out. Window-outside (page_of next) n pa0 q s s' (ground arith) window),
            omega arith,
          )))
