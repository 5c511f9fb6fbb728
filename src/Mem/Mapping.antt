-- ===== src/Mem/Mapping.antt =====
-- The kernel's windows of virtual memory: `map_4k`, `map_mmio`, `map_identity_4k`, `vmap_alloc_pages`,
-- `init_heap` and `ensure_mapped_span` of jotunheimkernel/src/mem/mod.rs. The page tables and the trait of
-- frame allocators are of another crate, and stand here as interfaces. `err` is a panic.
pub mod Pages
pub mod Mmio
pub mod Vmap
pub mod Span
pub mod Tables
mod Examples
use jotunheim.Prelude.{
  ℕ, zero, suc, ◌+◌, ◌-◌, ◌*◌, ◌/◌, ◌%◌, ◌^◌, ◌≤◌, ◌<◌, ◌≡◌, ◌≢◌, Bool, true, false, Option, none,
  some, ltb, leb, ◌==◌, ◌||◌, if◌then◌else◌, bit_and,
}
use jotunheim.Prelude.Words.{u64_mod, add64, sub64, not64}
use jotunheim.Prelude.Outcome.{Outcome, ok, err, out_of_fuel, ◌>>=◌}

-- The trait `FrameAllocator<Size4KiB>`
pub record FrameSource : Type 1 where
  pub Frames : Type 0
  pub allocate_frame : Frames → Option ℕ × Frames

-- `Result<MapperFlush, MapToError>`: mapped, `PageAlreadyMapped`, or another error.
pub data MapTo : Type 0 where
  mapped already_mapped refused : MapTo

-- `PageTableFlags`
pub data Flag : Type 0 where
  present writable no_cache no_execute global : Flag

-- `OffsetPageTable` with the flush of its result, as its documentation has it. A page is named by its
-- number, a frame by its address.
pub record Mapper (fs : FrameSource) : Type 1 where
  pub Tables : Type 0
  pub translate : Tables → ℕ → Option ℕ
  pub map_to : (page frame : ℕ) → (Flag → Bool) → Tables × fs.Frames → MapTo × (Tables × fs.Frames)
  pub update_flags : ℕ → (Flag → Bool) → Tables → Option Tables
  -- A page that is mapped leads to its frame, and the others as before.
  pub map_to-mapped :
      (page frame : ℕ) (flags : Flag → Bool) (s s' : Tables × fs.Frames)
      → map_to page frame flags s ≡ (mapped, s')
      → (q : ℕ) → translate s'.0 q ≡ (if page == q then some frame else translate s.0 q)
  -- An error leaves every page as it was; `PageAlreadyMapped` is said of a page that is mapped.
  pub map_to-already :
      (page frame : ℕ) (flags : Flag → Bool) (s s' : Tables × fs.Frames)
      → map_to page frame flags s ≡ (already_mapped, s')
      → (translate s.0 page ≢ none) × ((q : ℕ) → translate s'.0 q ≡ translate s.0 q)
  pub update_flags-translate :
      (page : ℕ) (flags : Flag → Bool) (t t' : Tables)
      → update_flags page flags t ≡ some t'
      → (q : ℕ) → translate t' q ≡ translate t q

-- `pa_mask_52`
unfoldable pub pa_mask_52 : ℕ → ℕ
pa_mask_52 x = bit_and x 0x000f_ffff_ffff_ffff

-- What `VirtAddr::new` accepts; it panics at any other address.
abbrev pub is_canonical : ℕ → Bool
is_canonical va = ltb va (2 ^ 47) || leb (2 ^ 64 - 2 ^ 47) va

-- `Page::containing_address`
abbrev pub page_of : ℕ → ℕ
page_of va = va / 4096

abbrev pub mmio_flags : Flag → Bool
mmio_flags f = elim f [
  | present ↦ true
  | writable ↦ true
  | no_cache ↦ true
  | no_execute ↦ true
  | global ↦ false
]

abbrev pub heap_flags : Flag → Bool
heap_flags f = elim f [
  | present ↦ true
  | writable ↦ true
  | no_cache ↦ false
  | no_execute ↦ true
  | global ↦ true
]

abbrev pub global_flags : Flag → Bool
global_flags f = elim f [
  | present ↦ true
  | writable ↦ true
  | no_cache ↦ false
  | no_execute ↦ false
  | global ↦ true
]

module _ (fs : FrameSource) (m : Mapper fs) where
  open fs use {Frames, allocate_frame}
  open m use {Tables, translate, map_to, update_flags}

  abbrev pub State : Type 0
  State = Tables × Frames

  -- `.unwrap().flush()`
  abbrev pub unwrap : MapTo × State → Outcome State
  unwrap (mapped, s) = ok s
  unwrap (already_mapped, s) = err
  unwrap (refused, s) = err

  unfoldable pub map_4k : (va pa : ℕ) → (Flag → Bool) → State → Outcome State
  map_4k va pa flags s =
      let pa_aligned = bit_and (pa_mask_52 pa) (not64 0xfff) in
      unwrap (map_to (page_of va) pa_aligned flags s)

  -- The loop of `map_mmio`.
  unfoldable pub mmio_loop : ℕ → (pa_cur pend va_cur : ℕ) → State → Outcome State
  mmio_loop zero pa_cur pend va_cur s = out_of_fuel
  mmio_loop (suc fuel) pa_cur pend va_cur s =
      if ltb pa_cur pend
      then ((if is_canonical va_cur
            then unwrap (map_to (page_of va_cur) pa_cur mmio_flags s)
            else err)
          >>= mmio_loop fuel (add64 pa_cur 0x1000) pend (add64 va_cur 0x1000))
      else ok s

  -- The address, `NEXT_MMIO_VA` after it, and the tables; `seeded` tells whether `FRAME_ALLOC` holds an
  -- allocator, without which `TinyAllocGuard::new` gives nothing.
  unfoldable pub map_mmio : (seeded : Bool) → (pa len next : ℕ) → State → Outcome (ℕ × ℕ × State)
  map_mmio seeded pa len next s =
      let pa0 = bit_and (pa_mask_52 pa) (not64 0xfff) in
      let pend = bit_and (pa_mask_52 (add64 (add64 pa len) 0xfff)) (not64 0xfff) in
      let size = sub64 pend pa0 in
      let off = sub64 pa pa0 in
      if seeded
      then (mmio_loop (suc (size / 4096)) pa0 pend next s >>= λ s'.
          ok (add64 next off, add64 next size, s'))
      else err

  -- `map_identity_4k`: a page that is mapped already stays.
  unfoldable pub map_identity_4k : ℕ → State → Outcome State
  map_identity_4k phys s =
      let (r, s') = map_to (page_of phys) (phys - phys % 4096) global_flags s in
      elim r [ mapped ↦ ok s' | already_mapped ↦ ok s' | refused ↦ err ]

  -- The loop of `vmap_alloc_pages`: `none` where no frame is left.
  unfoldable pub vmap_loop : ℕ → (base off bytes : ℕ) → State → Outcome (Bool × State)
  vmap_loop zero base off bytes s = out_of_fuel
  vmap_loop (suc fuel) base off bytes s =
      if ltb off bytes
      then (let (pf, frames) = allocate_frame s.1 in
          elim pf [
            | none ↦ ok (false, (s.0, frames))
            | some frame ↦
                map_4k (add64 base off) frame global_flags (s.0, frames)
                >>= vmap_loop fuel base (add64 off 0x1000) bytes
          ])
      else ok (true, s)

  -- The pages' address, if there are any, `NEXT_VMAP` after it, and the tables.
  unfoldable pub vmap_alloc_pages : (pages next : ℕ) → State → Outcome (Option ℕ × ℕ × State)
  vmap_alloc_pages pages next s =
      if ltb (pages * 4096) u64_mod
      then (vmap_loop (suc pages) next 0 (pages * 4096) s >>= λ r.
          ok ((if r.0 then some next else none), add64 next (pages * 4096), r.1))
      else ok (none, next, s)

  -- The result of `map_to_with_table_flags` in `ensure_mapped_span`.
  unfoldable pub ensured : ℕ → MapTo × State → Outcome State
  ensured va (mapped, s) = ok s
  ensured va (already_mapped, s) = elim (update_flags (page_of va) heap_flags s.0) [
    | none ↦ err
    | some t ↦ ok (t, s.1)
  ]
  ensured va (refused, s) = err

  -- One page of `ensure_mapped_span`.
  unfoldable pub ensure_page : ℕ → State → Outcome State
  ensure_page va s = elim (translate s.0 (page_of va)) [
    | some frame ↦ ok s
    | none ↦
        let (pf, frames) = allocate_frame s.1 in
        elim pf [
          | none ↦ err
          | some frame ↦ ensured va (map_to (page_of va) frame heap_flags (s.0, frames))
        ]
  ]

  unfoldable pub span_loop : ℕ → (va end : ℕ) → State → Outcome State
  span_loop zero va end s = out_of_fuel
  span_loop (suc fuel) va end s =
      if ltb va end then (ensure_page va s >>= span_loop fuel (add64 va 4096) end) else ok s

  unfoldable pub ensure_mapped_span : (start end : ℕ) → State → Outcome State
  ensure_mapped_span start end s =
      let va = bit_and start (not64 0xfff) in
      let end_al = bit_and (add64 end 0xfff) (not64 0xfff) in
      span_loop (suc ((end_al - va) / 4096)) va end_al s
