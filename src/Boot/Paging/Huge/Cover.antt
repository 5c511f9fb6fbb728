-- ===== src/Boot/Paging/Huge/Cover.antt =====
-- The rounds of `map_hhdm_huge`: each maps the next chunk of physical memory and nothing else.
use jotunheim.Prelude.{
  ℕ, zero, suc, ◌+◌, ◌*◌, ◌/◌, ◌%◌, ◌^◌, ◌≤◌, ◌<◌, ◌≡◌, ◌≢◌, refl, sym, ◌∙◌, ap, inl, inr, true,
  false, none, some, Bool-cases, arith, ltb,
}
use jotunheim.Prelude.Words.{add64}
use jotunheim.Boot.{hhdm_base}
use jotunheim.Prelude.Outcome.{Meets, meets, Meets-bind, Meets-map}
use jotunheim.Boot.Pages.{Firmware, AllocateType, Store}
use jotunheim.Boot.Paging.{address, pml4_index, pdpt_index, map_4kib_page}
use jotunheim.Boot.Paging.Entries.{IsPage, bit_and_address}
use jotunheim.Boot.Paging.Walk.{above, page_number}
use jotunheim.Boot.Paging.Ensure.{Grown-refl}
use jotunheim.Boot.Paging.Leaf.{
  Clear, ensure_table-Comes, pml4_index-above, pdpt_index-above, pd_index-above, above-page_number,
}
use jotunheim.Boot.Paging.Page.{view, IsTree, map_4kib_page-Updated}
use jotunheim.Boot.Paging.Range.{page_base}
use jotunheim.Boot.Paging.Layout.{Beside}
use jotunheim.Boot.Paging.Huge.{gib_round, mib_round, huge_entry_of}
use jotunheim.Boot.Paging.Huge.Chunk.{
  ChunkSet, set_absent-ChunkSet, huge_entry_of-present, huge_entry_of-huge, huge_entry_of-address,
}

-- The first areas of 1 GiB and of 2 MiB at `HHDM_BASE`.
abbrev pub gib_area : ℕ
gib_area = above 2 (page_number hhdm_base)

abbrev pub mib_area : ℕ
mib_area = above 1 (page_number hhdm_base)

-- Huge pages are for the whole chunks of the mapping of physical memory only.
abbrev pub HhdmFlat : ℕ → ℕ → ℕ → Type 0
HhdmFlat phys_max zero a = Unit
HhdmFlat phys_max (suc zero) a = Beside mib_area (mib_area + phys_max / 2 ^ 21) a
HhdmFlat phys_max (suc (suc zero)) a = Beside gib_area (gib_area + phys_max / 2 ^ 30) a
HhdmFlat phys_max (suc (suc (suc n))) a = Unit

module _ (fw : Firmware) (phys_max root : ℕ) where
  -- The address of a physical address in the mapping of physical memory, as a page.
  abbrev pub hhdm_page : ℕ → ℕ
  hhdm_page y = page_number (hhdm_base + y)

  -- Physical memory from `done` on is mapped for `size` bytes, and the other pages as before.
  abbrev pub Spans : ℕ → ℕ → Store fw → Store fw → Type 0
  Spans size done st st' =
      IsTree fw (HhdmFlat phys_max) root st'
      × ((y : ℕ) → done ≤ y → y < done + size → view fw root st' (hhdm_page y) ≡ some (page_base y))
      × ((vp : ℕ)
          → vp < 2 ^ 36
          → ((y : ℕ) → done ≤ y → y < done + size → hhdm_page y ≢ vp)
          → view fw root st' vp ≡ view fw root st vp)

  -- Physical memory is mapped up to `done` and not yet from there on; outside of its mapping all is as
  -- in the store `before`.
  pub record Covered (before : Store fw) (done : ℕ) (st : Store fw) : Type 0 where
    pub tree : IsTree fw (HhdmFlat phys_max) root st
    pub mapped : (y : ℕ) → y < done → view fw root st (hhdm_page y) ≡ some (page_base y)
    pub free : (y : ℕ) → done ≤ y → y < phys_max → view fw root st (hhdm_page y) ≡ none
    pub others :
        (vp : ℕ)
        → vp < 2 ^ 36
        → ((y : ℕ) → y < phys_max → hhdm_page y ≢ vp)
        → view fw root st vp ≡ view fw root before vp

  module _ (small : phys_max ≤ 2 ^ 46) where
    pub Covered-extend :
        (before st st' : Store fw) (size done : ℕ)
        → done % 4096 ≡ 0
        → size % 4096 ≡ 0
        → done + size ≤ phys_max
        → Covered before done st
        → Spans size done st st'
        → Covered before (done + size) st'
    Covered-extend before st st' size done pd ps fits c (tree, all, out) = record {
      tree = tree;
      mapped = λ y uy. elim (Bool-cases (ltb y done)) [
        | inr new ↦ all y (ground arith) uy
        | inl old ↦
            let below : y < done = ground arith in
            out (hhdm_page y) (omega arith) (λ z lz uz e. omega arith) ∙ c.mapped y below
      ];
      free = λ y ly uy.
          out (hhdm_page y) (omega arith) (λ z lz uz e. omega arith) ∙ c.free y (omega arith) uy;
      others = λ vp h o. out vp h (λ z lz uz. o z (omega arith)) ∙ c.others vp h o;
    }

    chunk_gib :
        (st st' : Store fw) (done : ℕ)
        → done % 2 ^ 30 ≡ 0
        → done + 2 ^ 30 ≤ phys_max
        → ChunkSet fw (HhdmFlat phys_max) root 2 (hhdm_page done) (huge_entry_of done) st st'
        → Spans (2 ^ 30) done st st'
    chunk_gib st st' done p fits (tree, all, out) =
        let at = huge_entry_of-address done (omega arith, omega arith) in
        (
          tree,
          λ y ly uy. all (hhdm_page y) (omega arith) (omega arith) ∙ ap some (rw at (omega arith)),
          λ vp h o. out vp h (λ near.
              absurd (o (done + vp % 2 ^ 18 * 4096) (omega arith) (omega arith) (omega arith))),
        )

    chunk_mib :
        (st st' : Store fw) (done : ℕ)
        → done % 2 ^ 21 ≡ 0
        → done + 2 ^ 21 ≤ phys_max
        → ChunkSet fw (HhdmFlat phys_max) root 1 (hhdm_page done) (huge_entry_of done) st st'
        → Spans (2 ^ 21) done st st'
    chunk_mib st st' done p fits (tree, all, out) =
        let at = huge_entry_of-address done (omega arith, omega arith) in
        (
          tree,
          λ y ly uy. all (hhdm_page y) (omega arith) (omega arith) ∙ ap some (rw at (omega arith)),
          λ vp h o. out vp h (λ near.
              absurd (o (done + vp % 2 ^ 9 * 4096) (omega arith) (omega arith) (omega arith))),
        )

    module _ {F : Type 0}
        (refused : (k : AllocateType) (s : fw.State) → fw.allocate k s ≡ none → F) where
      pub gib_round-Spans :
          (before st : Store fw) (done : ℕ)
          → done % 2 ^ 30 ≡ 0
          → done + 2 ^ 30 ≤ phys_max
          → Covered before done st
          → Meets F (Spans (2 ^ 30) done st) (gib_round fw root done st)
      unfolding gib_round
      gib_round-Spans before st done p fits c =
          let (own, s) = c.tree in
          let va : add64 hhdm_base done ≡ hhdm_base + done = omega arith in
          let page : IsPage done = (omega arith, omega arith) in
          rw va (
            Meets-bind
              (ensure_table-Comes fw (HhdmFlat phys_max) root refused false 2 (hhdm_page done)
                (pml4_index (hhdm_base + done)) own st root st
                (
                  own,
                  Grown-refl fw (HhdmFlat phys_max) root own st s,
                  rw (above-page_number (hhdm_base + done)) s.top,
                  λ mem vp' h e. refl,
                )
                (pml4_index-above (hhdm_base + done)) tt)
              λ (pdpt, st₁) comes. meets (
                chunk_gib st _ done p fits (
                  set_absent-ChunkSet fw (HhdmFlat phys_max) root own st 1 (hhdm_page done) _ pdpt
                    st₁ (huge_entry_of done) s comes (pdpt_index-above (hhdm_base + done))
                    (omega arith) (λ b. omega arith) (c.free done (omega arith) (omega arith))
                    (huge_entry_of-present done page) (huge_entry_of-huge done page))))

      pub mib_round-Spans :
          (before st : Store fw) (done : ℕ)
          → done % 2 ^ 21 ≡ 0
          → done + 2 ^ 21 ≤ phys_max
          → phys_max / 2 ^ 30 * 2 ^ 30 ≤ done
          → Covered before done st
          → Meets F (Spans (2 ^ 21) done st) (mib_round fw root done st)
      unfolding mib_round
      mib_round-Spans before st done p fits last c =
          let (own, s) = c.tree in
          let va : add64 hhdm_base done ≡ hhdm_base + done = omega arith in
          let page : IsPage done = (omega arith, omega arith) in
          rw va (
            Meets-bind
              (ensure_table-Comes fw (HhdmFlat phys_max) root refused false 2 (hhdm_page done)
                (pml4_index (hhdm_base + done)) own st root st
                (
                  own,
                  Grown-refl fw (HhdmFlat phys_max) root own st s,
                  rw (above-page_number (hhdm_base + done)) s.top,
                  λ mem vp' h e. refl,
                )
                (pml4_index-above (hhdm_base + done)) tt)
              λ (pdpt, st₁) c₁.
                Meets-bind
                  (ensure_table-Comes fw (HhdmFlat phys_max) root refused true 1 (hhdm_page done)
                    (pdpt_index (hhdm_base + done)) own st pdpt st₁ c₁
                    (pdpt_index-above (hhdm_base + done)) (inr (omega arith)))
                  λ (pd, st₂) comes. meets (
                    chunk_mib st _ done p fits (
                      set_absent-ChunkSet fw (HhdmFlat phys_max) root own st 0 (hhdm_page done) _ pd
                        st₂ (huge_entry_of done) s comes (pd_index-above (hhdm_base + done))
                        (omega arith) (λ b. omega arith) (c.free done (omega arith) (omega arith))
                        (huge_entry_of-present done page) (huge_entry_of-huge done page))))

      pub page_round-Spans :
          (before st : Store fw) (done : ℕ)
          → done % 4096 ≡ 0
          → done + 4096 ≤ phys_max
          → phys_max / 2 ^ 21 * 2 ^ 21 ≤ done
          → Covered before done st
          → Meets F (Spans 4096 done st) (map_4kib_page fw root (add64 hhdm_base done) done st)
      page_round-Spans before st done p fits last c =
          let va : add64 hhdm_base done ≡ hhdm_base + done = omega arith in
          let frame : address done ≡ done = omega (arith, bit_and_address done) in
          rw va (
            Meets-map
              (map_4kib_page-Updated fw (HhdmFlat phys_max) root refused (hhdm_base + done) done st
                clear c.tree)
              λ st' (tree, here, others).
                let here' : view fw root st' (hhdm_page done) ≡ some done =
                  rw (c.free done (omega arith) (omega arith), frame) at here in
                (
                  tree,
                  λ y ly uy.
                      let base : page_base y ≡ done = omega arith in
                      let same : hhdm_page y ≡ hhdm_page done = omega arith in
                      rw (base, same) here',
                  λ vp h o. others vp h (λ e. absurd (o done (omega arith) (omega arith) (sym e))),
                ))
        where
          clear : Clear fw (HhdmFlat phys_max) root (hhdm_page done)
          clear zero = inr (omega arith)
          clear (suc zero) = inr (omega arith)
          clear (suc (suc n)) = tt
