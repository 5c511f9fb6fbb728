-- ===== src/Boot/Paging/Image.antt =====
-- The kernel's image in the page tables: `build_pagetables_exec` maps it in two parts, below and
-- above 2 MiB.
use jotunheim.Prelude.{
  ℕ, ◌+◌, ◌%◌, ◌^◌, ◌≤◌, ◌<◌, ◌≡◌, refl, ◌∙◌, inl, inr, none, ltb, Bool-cases, arith,
}
use jotunheim.Prelude.Words.{u64_mod}
use jotunheim.Prelude.Outcome.{Meets, Meets-bind, Meets-map}
use jotunheim.Boot.Pages.{Firmware, AllocateType, Store}
use jotunheim.Boot.Paging.{map_4k_offset}
use jotunheim.Boot.Paging.Walk.{page_number}
use jotunheim.Boot.Paging.Page.{IsTree}
use jotunheim.Boot.Paging.Range.{page_base, ClearIn, Mapped, map_4k_offset-Mapped}
use jotunheim.Boot.Paging.Build.{two_mib, min, map_image}

module _ (fw : Firmware) (Flat : ℕ → ℕ → Type 0) (root : ℕ) where
  -- Ranges that meet at a page boundary and lie within one turn of the address space.
  Mapped-append :
      (st st' st'' : Store fw) (lo mid hi delta : ℕ)
      → mid % 4096 ≡ 0
      → hi % 4096 ≡ 0
      → lo ≤ mid
      → mid ≤ hi
      → hi ≤ page_base lo + 2 ^ 48
      → Mapped fw Flat root st lo mid delta st'
      → Mapped fw Flat root st' mid hi delta st''
      → Mapped fw Flat root st lo hi delta st''
  Mapped-append st st' st'' lo mid hi delta pm ph a b turn (tree, all, out) (tree', all', out') = (
    tree',
    λ x lx ux. elim (Bool-cases (ltb x mid)) [
      | inr past ↦ all' x (ground arith) ux
      | inl first ↦
          let below : x < mid = ground arith in
          out' (page_number x) (omega arith) (λ y ly uy e. absurd (omega arith)) ∙ all x lx below
    ],
    λ vp h o.
        out' vp h (λ y ly uy. o y (omega arith) uy) ∙ out vp h (λ y ly uy. o y ly (omega arith)),
  )

  -- A range that ends before it begins is no range.
  Mapped-nothing :
      (st st' st'' : Store fw) (lo hi lo' hi' delta : ℕ)
      → hi' ≤ lo'
      → Mapped fw Flat root st lo hi delta st'
      → Mapped fw Flat root st' lo' hi' delta st''
      → Mapped fw Flat root st lo hi delta st''
  Mapped-nothing st st' st'' lo hi lo' hi' delta empty (tree, all, out) (tree', all', out') = (
    tree',
    λ x lx ux. out' (page_number x) (omega arith) (λ y ly uy. absurd (omega arith)) ∙ all x lx ux,
    λ vp h o. out' vp h (λ y ly uy. absurd (omega arith)) ∙ out vp h o,
  )

  module _ {F : Type 0}
      (refused : (k : AllocateType) (s : fw.State) → fw.allocate k s ≡ none → F) where
    -- Both ends on page boundaries.
    pub map_pages-Mapped :
        (lo hi delta : ℕ) (st : Store fw)
        → lo % 4096 ≡ 0
        → hi % 4096 ≡ 0
        → lo < u64_mod
        → hi + 4096 ≤ u64_mod
        → hi + 4096 ≤ lo + 2 ^ 48
        → ClearIn fw Flat root lo hi
        → IsTree fw Flat root st
        → Meets F (Mapped fw Flat root st lo hi delta) (map_4k_offset fw root lo hi delta st)
    map_pages-Mapped lo hi delta st pl ph below top turn clear tree =
        let base : page_base lo ≡ lo = omega arith in
        let base' : page_base (hi + 4095) ≡ hi = omega arith in
        let clear' : ClearIn fw Flat root (page_base lo) (page_base (hi + 4095)) =
          rw (base, base') clear in
        rw (base, base') at
          (map_4k_offset-Mapped fw Flat root refused lo hi delta st below top turn clear' tree)

    pub map_image-Mapped :
        (min_vaddr max_vaddr delta : ℕ) (st : Store fw)
        → min_vaddr % 4096 ≡ 0
        → max_vaddr % 4096 ≡ 0
        → min_vaddr < max_vaddr
        → max_vaddr + 4096 ≤ u64_mod
        → max_vaddr + 4096 ≤ min_vaddr + 2 ^ 48
        → ClearIn fw Flat root min_vaddr max_vaddr
        → IsTree fw Flat root st
        → Meets F
            (Mapped fw Flat root st min_vaddr max_vaddr delta)
            (map_image fw root min_vaddr max_vaddr delta st)
    unfolding map_image
    map_image-Mapped lo hi delta st pl ph lt top turn clear tree =
        elim (Bool-cases (ltb lo two_mib)) [
          | inr above ↦
              rw above (map_pages-Mapped lo hi delta st pl ph (omega arith) top turn clear tree)
          | inl below ↦ elim (Bool-cases (ltb two_mib hi)) [
            | inl across ↦
                let first : min hi two_mib ≡ two_mib = ground arith in
                rw (below, first)
                  (Meets-bind
                    (map_pages-Mapped lo two_mib delta st pl refl (omega arith) (omega arith)
                      (ground arith) (λ x lx ux. clear x lx (ground arith)) tree)
                    λ st' m.
                      Meets-map
                        (map_pages-Mapped two_mib hi delta st' refl ph (omega arith) top
                          (ground arith) (λ x lx ux. clear x (ground arith) ux) m.0)
                        λ st'' m'.
                          Mapped-append st st' st'' lo two_mib hi delta refl ph (ground arith)
                            (ground arith) (omega arith) m m')
            | inr under ↦
                let first : min hi two_mib ≡ hi = ground arith in
                rw (below, first)
                  (Meets-bind
                    (map_pages-Mapped lo hi delta st pl ph (ground arith) top turn clear tree)
                    λ st' m.
                      Meets-map
                        (map_pages-Mapped two_mib hi delta st' refl ph (omega arith) top
                          (ground arith) (λ x lx ux. clear x (ground arith) ux) m.0)
                        λ st'' m'.
                          Mapped-nothing st st' st'' lo hi two_mib hi delta (ground arith) m m')
          ]
        ]
