-- ===== src/Boot/Paging/Ident.antt =====
-- The identity mappings that `build_pagetables_exec` puts around the image.
use jotunheim.Prelude.{
  ℕ, zero, suc, ◌+◌, ◌-◌, ◌/◌, ◌%◌, ◌^◌, ◌≤◌, ◌<◌, ◌≡◌, refl, sym, ◌∙◌, inl, inr, Bool, true, false,
  not, none, ltb, leb, Bool-cases, arith,
}
use jotunheim.Prelude.Words.{u64_mod, add64}
use jotunheim.Prelude.Outcome.{Meets, meets, Meets-bind, Meets-map, Meets-if}
use jotunheim.Boot.Pages.{Firmware, AllocateType, Store}
use jotunheim.Boot.Paging.{address, map_4k_ident, map_4kib_page}
use jotunheim.Boot.Paging.Entries.{bit_and_address}
use jotunheim.Boot.Paging.Walk.{page_number}
use jotunheim.Boot.Paging.Leaf.{Clear}
use jotunheim.Boot.Paging.Page.{view, IsTree, Updated, kept, map_4kib_page-Updated}
use jotunheim.Boot.Paging.Range.{page_base, Mapped, align_up-page}
use jotunheim.Boot.Paging.Image.{map_pages-Mapped}
use jotunheim.Boot.Paging.Build.{
  two_mib, min, max, when, overlap_kernel, ident_loop, map_low_ident, map_high_ident,
}
use jotunheim.Boot.Paging.Layout.{IsImage, Beside, Layout, apart, low_ident-Layout}

module _ (fw : Firmware) (Flat : ℕ → ℕ → Type 0) (root : ℕ) {F : Type 0}
    (refused : (k : AllocateType) (s : fw.State) → fw.allocate k s ≡ none → F)
    (clear : (x : ℕ) → x < 2 ^ 47 → Clear fw Flat root (page_number x)) where
  -- A range that is mapped only where it is not empty.
  when-Mapped :
      (b : Bool) (from to : ℕ) (st : Store fw)
      → (b ≡ false → to ≤ from)
      → from % 4096 ≡ 0
      → to % 4096 ≡ 0
      → from < u64_mod
      → to ≤ two_mib
      → IsTree fw Flat root st
      → Meets F (Mapped fw Flat root st from to 0) (when fw b (map_4k_ident fw root from to) st)
  when-Mapped b from to st skip pf pt hf ht tree =
      Meets-if b
        (λ e.
          map_pages-Mapped fw Flat root refused from to 0 st pf pt hf (omega arith) (omega arith)
            (λ x lx ux. clear x (omega arith)) tree)
        λ e. meets (tree, (λ x lx ux. absurd (omega (arith, skip e))), λ vp h o. refl)

  module _ (load_base lo hi : ℕ) (image : IsImage load_base lo hi) where
    pub map_low_ident-Layout :
        (st : Store fw)
        → Layout fw Flat root load_base lo hi 0x1000 st
        → Meets F (Layout fw Flat root load_base lo hi two_mib) (map_low_ident fw root lo hi st)
    unfolding map_low_ident
    map_low_ident-Layout st l =
        Meets-bind
          (when-Mapped (ltb 0 (min lo two_mib)) 0x1000 (min lo two_mib) st (λ e. ground arith) refl
            (ground (arith, image.lo_page)) (omega arith) (ground arith) l.tree)
          λ st₁ m.
            Meets-map
              (when-Mapped (ltb hi two_mib) hi two_mib st₁ (λ e. ground arith) image.hi_page refl
                (omega (arith, image.top)) (omega arith) m.0)
              λ st' m'. low_ident-Layout fw Flat root load_base lo hi image st st₁ st' l m m'

    -- The next page, where it is none of the image's.
    ident_page-Layout :
        (va : ℕ) (st st' : Store fw)
        → va % 4096 ≡ 0
        → 0x1000 ≤ va
        → va + 4096 ≤ 2 ^ 47
        → Beside lo hi va
        → Layout fw Flat root load_base lo hi va st
        → Updated fw Flat root st
            (page_number va)
            (kept (view fw root st (page_number va)) (address va))
            st'
        → Layout fw Flat root load_base lo hi (va + 4096) st'
    ident_page-Layout va st st' p a b s l (tree, here, others) = record {
      tree = tree;
      holds = (
        (λ x lx ux.
            others (page_number x) (omega arith)
              (apart fw Flat root load_base lo hi image x va lx ux (omega arith) s)
            ∙ l.holds.0 x lx ux),
        λ x ax ux t. elim (Bool-cases (ltb x va)) [
          | inl old ↦
              others (page_number x) (omega arith) (λ e. absurd (ground arith))
              ∙ l.holds.1 x ax (ground arith) t
          | inr new ↦
              let base : page_base x ≡ va = ground arith in
              let page : page_number x ≡ page_number va = ground arith in
              let frame : address va ≡ va = omega (arith, bit_and_address va) in
              let first =
                l.free (page_number va) (omega arith)
                  (λ y ly uy. apart fw Flat root load_base lo hi image y va ly uy (omega arith) s)
                  (λ y ly uy e. absurd (omega arith)) in
              rw (base, page) (here ∙ (rw (first, frame) refl))
        ],
      );
      free = λ vp h o t.
          others vp h (λ e. t va (omega arith) (omega arith) (sym e))
          ∙ l.free vp h o (λ y ly uy. t y ly (omega arith));
    }

    -- The image's own pages are passed over.
    image_page-Layout :
        (va : ℕ) (st : Store fw)
        → overlap_kernel lo hi va ≡ true
        → va % 4096 ≡ 0
        → va + 4096 ≤ 2 ^ 47
        → Layout fw Flat root load_base lo hi va st
        → Layout fw Flat root load_base lo hi (va + 4096) st
    image_page-Layout va st inside p b l = record {
      tree = l.tree;
      holds = (
        l.holds.0,
        λ x ax ux t. elim (Bool-cases (ltb x va)) [
          | inl old ↦ l.holds.1 x ax (ground arith) t
          | inr new ↦ absurd (ground (arith, image.lo_page, image.hi_page))
        ],
      );
      free = λ vp h o t. l.free vp h o (λ y ly uy. t y ly (omega arith));
    }

    ident_round-Layout :
        (va : ℕ) (st : Store fw)
        → va % 4096 ≡ 0
        → 0x1000 ≤ va
        → va + 4096 ≤ 2 ^ 47
        → Layout fw Flat root load_base lo hi va st
        → Meets F
            (Layout fw Flat root load_base lo hi (va + 4096))
            (when fw (not (overlap_kernel lo hi va)) (map_4kib_page fw root va va) st)
    ident_round-Layout va st p a b l = elim (Bool-cases (overlap_kernel lo hi va)) [
      | inl inside ↦ rw inside (meets (image_page-Layout va st inside p b l))
      | inr outside ↦ rw outside (
          Meets-map
            (map_4kib_page-Updated fw Flat root refused va va st (clear va (omega arith)) l.tree)
            λ st' u.
              ident_page-Layout va st st' p a b
                (elim (Bool-cases (leb hi va)) [
                  | inl above ↦ inr (ground arith)
                  | inr below ↦ inl (ground arith)
                ])
                l u)
    ]

    ident_loop-Layout :
        (fuel va ident_end : ℕ) (st : Store fw)
        → (ident_end - va + 4095) / 4096 < fuel
        → va % 4096 ≡ 0
        → 0x1000 ≤ va
        → ident_end % 4096 ≡ 0
        → ident_end ≤ 2 ^ 47
        → Layout fw Flat root load_base lo hi va st
        → Meets F
            (Layout fw Flat root load_base lo hi (max va ident_end))
            (ident_loop fw root lo hi fuel ident_end va st)
    unfolding ident_loop
    ident_loop-Layout zero va ident_end st enough p a pe b l = absurd (omega arith)
    ident_loop-Layout (suc fuel) va ident_end st enough p a pe b l =
        elim (Bool-cases (ltb va ident_end)) [
          | inr done ↦ let same : max va ident_end ≡ va = ground arith in rw (done, same) (meets l)
          | inl more ↦
              let below : va < ident_end = ground arith in
              let next : add64 va 0x1000 ≡ va + 4096 = omega arith in
              let same : max va ident_end ≡ max (va + 4096) ident_end = ground arith in
              rw (more, same)
                (Meets-bind (ident_round-Layout va st p a (omega arith) l) λ st' l'. rw next (
                  ident_loop-Layout fuel (va + 4096) ident_end st' (omega arith) (omega arith)
                    (omega arith) pe b l'))
        ]

    pub map_high_ident-Layout :
        (ident_bytes : ℕ) (st : Store fw)
        → ident_bytes ≤ 2 ^ 47
        → Layout fw Flat root load_base lo hi two_mib st
        → Meets F
            (Layout fw Flat root load_base lo hi (max two_mib (page_base (ident_bytes + 4095))))
            (map_high_ident fw root lo hi ident_bytes st)
    unfolding map_high_ident
    map_high_ident-Layout ident_bytes st b l = rw (align_up-page ident_bytes (omega arith)) (
        ident_loop-Layout _ two_mib (page_base (ident_bytes + 4095)) st (omega arith) refl
          (omega arith) (omega arith) (omega arith) l)
