-- ===== src/Boot/Paging/Range.antt =====
-- `map_4k_offset` over a range: it ends, maps every page of the range, and no other.
use jotunheim.Prelude.{
  ℕ, zero, suc, ◌+◌, ◌-◌, ◌/◌, ◌%◌, ◌^◌, ◌≤◌, ◌<◌, ◌≡◌, ◌≢◌, refl, sym, ◌∙◌, inl, inr, none, some,
  ltb, Bool-cases, arith,
}
use jotunheim.Prelude.Words.{u64_mod, add64, bit_and_page}
use jotunheim.Boot.{align_up, align_down}
use jotunheim.Prelude.Outcome.{Meets, meets, Meets-bind, Meets-map}
use jotunheim.Boot.Pages.{Firmware, AllocateType, Refused, Store}
use jotunheim.Boot.Paging.{address, map_4k_loop, map_4k_offset}
use jotunheim.Boot.Paging.Walk.{page_number}
use jotunheim.Boot.Paging.Leaf.{Clear}
use jotunheim.Boot.Paging.Page.{view, IsTree, Updated, map_4k_round-Updated}

-- The page that an address lies in.
abbrev pub page_base : ℕ → ℕ
page_base x = x - x % 4096

pub align_down-page : (x : ℕ) → x < u64_mod → align_down x 0x1000 ≡ page_base x
align_down-page x h = bit_and_page x h

pub align_up-page : (x : ℕ) → x + 4096 ≤ u64_mod → align_up x 0x1000 ≡ page_base (x + 4095)
align_up-page x h = ground (arith, bit_and_page (x + 4095))

module _ (fw : Firmware) (Flat : ℕ → ℕ → Type 0) (root : ℕ) where
  -- No address from `lo` up to `hi` lies in the page `vp`.
  abbrev pub Outside : ℕ → ℕ → ℕ → Type 0
  Outside lo hi vp = (x : ℕ) → lo ≤ x → x < hi → page_number x ≢ vp

  -- No huge page lies at or above the pages of these addresses.
  abbrev pub ClearIn : ℕ → ℕ → Type 0
  ClearIn lo hi = (x : ℕ) → lo ≤ x → x < hi → Clear fw Flat root (page_number x)

  -- The addresses from `lo` up to `hi` are mapped to the frames `delta` further on, and the pages
  -- outside as before.
  abbrev pub Mapped : Store fw → ℕ → ℕ → ℕ → Store fw → Type 0
  Mapped st lo hi delta st' =
      IsTree fw Flat root st'
      × ((x : ℕ)
          → lo ≤ x
          → x < hi
          → view fw root st' (page_number x) ≡ some (address (add64 (page_base x) delta)))
      × ((vp : ℕ) → vp < 2 ^ 36 → Outside lo hi vp → view fw root st' vp ≡ view fw root st vp)

  module _ {F : Type 0}
      (refused : (k : AllocateType) (s : fw.State) → fw.allocate k s ≡ none → F) where
    Mapped-cons :
        (st st' st'' : Store fw) (va hi delta : ℕ)
        → va % 4096 ≡ 0
        → va < hi
        → hi ≤ va + 2 ^ 48
        → Updated fw Flat root st (page_number va) (some (address (add64 va delta))) st'
        → Mapped st' (va + 4096) hi delta st''
        → Mapped st va hi delta st''
    Mapped-cons st st' st'' va hi delta low lt small (tree, here, others) (tree', all, outside) = (
      tree',
      λ x lo up. elim (Bool-cases (ltb x (va + 4096))) [
        | inr past ↦ all x (ground arith) up
        | inl first ↦
            let base : page_base x ≡ va = ground arith in
            let page : page_number x ≡ page_number va = ground arith in
            rw (base, page)
              (outside (page_number va) (omega arith) (λ y ly uy e. absurd (omega arith)) ∙ here)
      ],
      λ vp h out.
          outside vp h (λ y ly uy. out y (omega arith) uy)
          ∙ others vp h (λ e. out va (omega arith) lt (sym e)),
    )

    pub map_4k_loop-Mapped :
        (fuel va hi delta : ℕ) (st : Store fw)
        → (hi - va) / 4096 < fuel
        → va % 4096 ≡ 0
        → hi % 4096 ≡ 0
        → hi < u64_mod
        → hi ≤ va + 2 ^ 48
        → ClearIn va hi
        → IsTree fw Flat root st
        → Meets F (Mapped st va hi delta) (map_4k_loop fw root fuel delta hi va st)
    unfolding map_4k_loop
    map_4k_loop-Mapped zero va hi delta st enough low high top small clear tree =
        absurd (omega arith)
    map_4k_loop-Mapped (suc fuel) va hi delta st enough low high top small clear tree =
        elim (Bool-cases (ltb va hi)) [
          | inr past ↦ rw past (meets (tree, (λ x lo up. absurd (ground arith)), λ vp h out. refl))
          | inl lt ↦
              let below : va < hi = ground arith in
              let next : add64 va 0x1000 ≡ va + 4096 = ground arith in
              rw (lt, next)
                (Meets-bind
                  (map_4k_round-Updated fw Flat root refused delta va st
                    (clear va (omega arith) below) tree)
                  λ st' u.
                    Meets-map
                      (map_4k_loop-Mapped fuel (va + 4096) hi delta st' (omega arith) (omega arith)
                        high top (omega arith) (λ x lx ux. clear x (omega arith) ux) u.0)
                      λ st'' m. Mapped-cons st st' st'' va hi delta low below small u m)
        ]

    pub map_4k_offset-Mapped :
        (start_va end_va delta : ℕ) (st : Store fw)
        → start_va < u64_mod
        → end_va + 4096 ≤ u64_mod
        → end_va + 4096 ≤ start_va + 2 ^ 48
        → ClearIn (page_base start_va) (page_base (end_va + 4095))
        → IsTree fw Flat root st
        → Meets F
            (Mapped st (page_base start_va) (page_base (end_va + 4095)) delta)
            (map_4k_offset fw root start_va end_va delta st)
    unfolding map_4k_offset
    map_4k_offset-Mapped start_va end_va delta st hs he small clear tree =
        rw (align_down-page start_va hs, align_up-page end_va he)
          (map_4k_loop-Mapped _ (page_base start_va) (page_base (end_va + 4095)) delta st
            (omega arith) (omega arith) (omega arith) (omega arith) (omega arith) clear tree)

-- No huge page anywhere.
abbrev pub Small : ℕ → ℕ → Type 0
Small n area = Unit

-- In a tree of tables without huge pages `map_4k_offset` ends, and fails only where the firmware can
-- refuse a page. Seen as a map from pages to frames, the tables afterwards send each address of the
-- rounded range to the frame `delta` further on, and every page outside of the range where it went
-- before; and they are a tree again. The range is at most the 256 TiB of one address space, and its
-- end does not reach the last page.
pub map_4k_offset_refines :
    (fw : Firmware) (root start_va end_va delta : ℕ) (st : Store fw)
    → start_va < u64_mod
    → end_va + 4096 ≤ u64_mod
    → end_va + 4096 ≤ start_va + 2 ^ 48
    → IsTree fw Small root st
    → Meets
        (Refused fw)
        (Mapped fw Small root st (page_base start_va) (page_base (end_va + 4095)) delta)
        (map_4k_offset fw root start_va end_va delta st)
map_4k_offset_refines fw root start_va end_va delta st hs he small tree =
    map_4k_offset-Mapped fw Small root (λ k s e. (k, s, e)) start_va end_va delta st hs he small
      (λ x lx ux n. tt) tree
