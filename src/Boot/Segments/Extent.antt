-- ===== src/Boot/Segments/Extent.antt =====
-- The extent that `layout` finds holds every segment, and ends on a page boundary.
use jotunheim.Prelude.{
  ℕ, ◌+◌, ◌%◌, ◌≤◌, ◌<◌, ◌≡◌, refl, true, false, some, List, [], ◌∷◌, ◌==◌, Bool-cases, inl, inr,
  ◌⊎◌, arith,
}
use mathlib.Core.Path.{subst, sym}
use jotunheim.Prelude.Lists.{All}
use jotunheim.Prelude.Words.{u64_mod, u64_max, add64}
use jotunheim.Boot.{align_up}
use jotunheim.Boot.Paging.Range.{page_base, align_up-page}
use jotunheim.Boot.Paging.Build.{min, max}
use jotunheim.Boot.Segments.{ProgramHeader, Layout, extend, counts, layout_loop, layout}

-- A segment that ends a page before the end of the address space at the latest.
abbrev pub IsSane : ProgramHeader → Type 0
IsSane ph = ph.virtual_addr + ph.mem_size + 4096 ≤ u64_mod

-- The segment lies between the two addresses, and its alignment is taken into account.
abbrev pub Inside : Layout → ProgramHeader → Type 0
Inside l ph =
    counts ph ≡ true
    → (l.min_vaddr ≤ ph.virtual_addr)
      × (ph.virtual_addr + ph.mem_size ≤ l.max_vaddr)
      × (ph.align ≤ l.max_align)

-- The later extent contains the earlier one, and both end on a page boundary.
abbrev Wider : Layout → Layout → Type 0
Wider l l' =
    (l'.min_vaddr ≤ l.min_vaddr)
    × (l.max_vaddr ≤ l'.max_vaddr)
    × (l.max_align ≤ l'.max_align)
    × (l'.max_vaddr % 4096 ≡ 0)

min_le : (a b : ℕ) → (min a b ≤ a) × (min a b ≤ b)
min_le a b = (ground arith, ground arith)

max_le : (a b : ℕ) → (a ≤ max a b) × (b ≤ max a b)
max_le a b = (ground arith, ground arith)

max_page : (a b : ℕ) → a % 4096 ≡ 0 → b % 4096 ≡ 0 → max a b % 4096 ≡ 0
max_page a b p q = ground arith

-- Nothing was found yet, or the extent is not empty.
abbrev IsOpen : Layout → Type 0
IsOpen l = (l.min_vaddr ≡ u64_max) ⊎ (l.min_vaddr < l.max_vaddr)

extend-Inside :
    (ph : ProgramHeader) (l : Layout)
    → IsSane ph
    → counts ph ≡ true
    → l.max_vaddr % 4096 ≡ 0
    → Wider l (extend ph l)
      × Inside (extend ph l) ph
      × ((extend ph l).min_vaddr < (extend ph l).max_vaddr)
extend-Inside ph l sane loads p =
    let end : add64 ph.virtual_addr ph.mem_size ≡ ph.virtual_addr + ph.mem_size = omega arith in
    let up : align_up (add64 ph.virtual_addr ph.mem_size) 0x1000
        ≡ page_base (ph.virtual_addr + ph.mem_size + 4095) =
      rw end (align_up-page (ph.virtual_addr + ph.mem_size) sane) in
    let top = align_up (add64 ph.virtual_addr ph.mem_size) 0x1000 in
    let lo = min_le l.min_vaddr ph.virtual_addr in
    let hi = max_le l.max_vaddr top in
    let al = max_le l.max_align (max ph.align 0x1000) in
    let al' = max_le ph.align 0x1000 in
    let size : 0 < ph.mem_size = positive ph loads in
    (
      (lo.0, hi.0, al.0, max_page l.max_vaddr top p (omega (arith, up))),
      (λ h. (lo.1, omega (arith, up), omega arith)),
      omega (arith, up),
    )
  where
    positive : (ph : ProgramHeader) → counts ph ≡ true → 0 < ph.mem_size
    positive ph loads = elim (Bool-cases ph.is_load) [
      | inl load ↦ ground arith
      | inr other ↦ absurd (ground arith)
    ]

-- What one run of the loop gives.
abbrev Spanned : List ProgramHeader → Layout → Layout → Type 0
Spanned phs l l' = Wider l l' × All (Inside l') phs × IsOpen l'

layout_loop-Inside :
    (phs : List ProgramHeader) (l : Layout)
    → All IsSane phs
    → l.max_vaddr % 4096 ≡ 0
    → IsOpen l
    → Spanned phs l (layout_loop phs l)
unfolding layout_loop
layout_loop-Inside [] l sane p open_ = ((omega arith, omega arith, omega arith, p), tt, open_)
layout_loop-Inside (ph ∷ phs) l sane p open_ = elim (Bool-cases (counts ph)) [
  | inr skipped ↦
      let (wide, all, open') = layout_loop-Inside phs l sane.1 p open_ in
      let step : layout_loop (ph ∷ phs) l ≡ layout_loop phs l = rw skipped refl in
      subst (Spanned (ph ∷ phs) l) (sym step) (wide, ((λ loads. absurd (ground arith)), all), open')
  | inl loads ↦
      let (wide, inside, found) = extend-Inside ph l sane.0 loads p in
      let (wide', all, open') = layout_loop-Inside phs (extend ph l) sane.1 wide.3 (inr found) in
      let at = inside loads in
      let step : layout_loop (ph ∷ phs) l ≡ layout_loop phs (extend ph l) = rw loads refl in
      subst (Spanned (ph ∷ phs) l) (sym step) (
        (omega arith, omega arith, omega arith, wide'.3),
        ((λ h. (omega arith, omega arith, omega arith)), all),
        open',
      )
]

-- The extent of the segments holds every loadable segment that is not empty, and takes its alignment
-- into account; it is not empty and ends on a page boundary, as the page tables want it. The segments
-- end a page before the end of the address space at the latest.
pub layout-Inside :
    (phs : List ProgramHeader) (l : Layout)
    → All IsSane phs
    → layout phs ≡ some l
    → All (Inside l) phs × (l.min_vaddr < l.max_vaddr) × (l.max_vaddr % 4096 ≡ 0)
unfolding layout
layout-Inside phs l sane e =
    let start : Layout = record { min_vaddr = u64_max; max_vaddr = 0; max_align = 0 } in
    let (wide, all, open_) = layout_loop-Inside phs start sane refl (inl refl) in
    elim (Bool-cases ((layout_loop phs start).min_vaddr == u64_max)) [
      | inl none_found ↦ absurd (ground arith)
      | inr found ↦
          let same : layout_loop phs start ≡ l = ground arith in
          subst
            (λ (m : Layout).
              All (Inside m) phs × (m.min_vaddr < m.max_vaddr) × (m.max_vaddr % 4096 ≡ 0))
            same (all, not_empty (layout_loop phs start) found open_, wide.3)
    ]
  where
    not_empty :
        (l : Layout) → (l.min_vaddr == u64_max) ≡ false → IsOpen l → l.min_vaddr < l.max_vaddr
    not_empty l found (inl e) = absurd (ground arith)
    not_empty l found (inr lt) = lt
