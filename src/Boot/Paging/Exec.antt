-- ===== src/Boot/Paging/Exec.antt =====
-- The page tables that `build_pagetables_exec` leaves to the kernel.
use jotunheim.Prelude.{
  ℕ, zero, suc, ◌+◌, ◌-◌, ◌^◌, ◌≤◌, ◌<◌, ◌≡◌, ◌≢◌, refl, sym, ◌∙◌, ◌⊎◌, inl, inr, none, some,
  Option-cases, arith,
}
use jotunheim.Prelude.Words.{sub64}
use jotunheim.Boot.{hhdm_base}
use jotunheim.Prelude.Outcome.{Meets, meets, failed, Meets-bind}
use jotunheim.Boot.Pages.{Firmware, AllocateType, max_address, Refused, Store, take_page}
use jotunheim.Boot.Paging.Walk.{above, page_number}
use jotunheim.Boot.Paging.Leaf.{Clear}
use jotunheim.Boot.Paging.Page.{view}
use jotunheim.Boot.Paging.Range.{page_base, ClearIn, align_up-page}
use jotunheim.Boot.Paging.Start.{fresh, root_only, fresh-Shape, fresh_empty}
use jotunheim.Boot.Paging.Build.{two_mib, max, build_pagetables_exec}
use jotunheim.Boot.Paging.Image.{map_image-Mapped}
use jotunheim.Boot.Paging.Layout.{IsImage, Beside, Layout, image-Layout}
use jotunheim.Boot.Paging.Ident.{map_low_ident-Layout, map_high_ident-Layout}
use jotunheim.Boot.Paging.Huge.Cover.{HhdmFlat, Covered}
use jotunheim.Boot.Paging.Huge.Rounds.{map_hhdm_huge-Covered}

-- The image does not reach into the 64 TiB at `HHDM_BASE`.
abbrev pub BesideHhdm : ℕ → ℕ → Type 0
BesideHhdm lo hi = (hi ≤ hhdm_base) ⊎ (hhdm_base + 2 ^ 46 ≤ lo)

-- Where the identity mapping ends.
abbrev pub ident_end : ℕ → ℕ
ident_end ident_bytes = max two_mib (page_base (ident_bytes + 4095))

-- The three mappings: the image to its frames, low memory beside the image to itself, and all physical
-- memory at `HHDM_BASE`.
abbrev pub Ready :
    (fw : Firmware) → (load_base lo hi ident_bytes phys_max : ℕ) → ℕ × Store fw → Type 0
Ready fw load_base lo hi ident_bytes phys_max (root, st) =
    ((x : ℕ)
      → lo ≤ x
      → x < hi
      → view fw root st (page_number x) ≡ some (load_base + (page_base x - lo)))
    × ((x : ℕ)
        → 0x1000 ≤ x
        → x < ident_end ident_bytes
        → Beside lo hi x
        → view fw root st (page_number x) ≡ some (page_base x))
    × ((y : ℕ) → y < phys_max → view fw root st (page_number (hhdm_base + y)) ≡ some (page_base y))

module _ (fw : Firmware) (lim : ℕ) (small : lim ≤ 2 ^ 46) where
  Clear-low : (root x : ℕ) → x < 2 ^ 47 → Clear fw (HhdmFlat lim) root (page_number x)
  Clear-low root x h zero = inl (omega arith)
  Clear-low root x h (suc zero) = inl (omega arith)
  Clear-low root x h (suc (suc n)) = tt

  module _ (load_base lo hi : ℕ) (image : IsImage load_base lo hi) (beside : BesideHhdm lo hi) where
    -- The image lies before or behind the mapping of physical memory.
    place :
        (x : ℕ)
        → lo ≤ x
        → x < hi
        → Beside (page_number hhdm_base) (page_number hhdm_base + 2 ^ 34) (page_number x)
    place x lx ux = elim image.half [
      | inl low ↦ inl (omega arith)
      | inr high ↦ elim beside [
        | inl below ↦ inl (omega (arith, image.top, image.hi_page))
        | inr above ↦ inr (omega (arith, image.top, image.lo_page))
      ]
    ]

    apart_hhdm :
        (x y : ℕ) → lo ≤ x → x < hi → y < 2 ^ 46 → page_number (hhdm_base + y) ≢ page_number x
    apart_hhdm x y lx ux h e = elim (place x lx ux) [
      | inl below ↦ omega arith
      | inr above ↦ omega arith
    ]

    clear_image : (root : ℕ) → ClearIn fw (HhdmFlat lim) root lo hi
    clear_image root x lx ux zero = elim (place x lx ux) [
      | inl below ↦ inl (omega arith)
      | inr above ↦ inr (omega arith)
    ]
    clear_image root x lx ux (suc zero) = elim (place x lx ux) [
      | inl below ↦ inl (omega arith)
      | inr above ↦ inr (omega arith)
    ]
    clear_image root x lx ux (suc (suc n)) = tt

    -- The mapping of physical memory comes last, and leaves the others as they are.
    Covered-Ready :
        (root ident_bytes : ℕ) (st st' : Store fw)
        → ident_bytes ≤ 2 ^ 47
        → Layout fw (HhdmFlat lim) root load_base lo hi (ident_end ident_bytes) st
        → Covered fw lim root st lim st'
        → Ready fw load_base lo hi ident_bytes lim (root, st')
    Covered-Ready root ident_bytes st st' hb l c = (
      (λ x lx ux.
          c.others (page_number x) (omega arith) (λ y uy. apart_hhdm x y lx ux (omega arith))
          ∙ l.holds.0 x lx ux),
      (λ x lx ux b.
          let low : x < 2 ^ 47 = ground arith in
          c.others (page_number x) (omega arith) (λ y uy e. absurd (omega arith))
          ∙ l.holds.1 x lx ux b),
      c.mapped,
    )

    Layout-Covered :
        (root ident_bytes : ℕ) (st : Store fw)
        → ident_bytes ≤ 2 ^ 47
        → Layout fw (HhdmFlat lim) root load_base lo hi (ident_end ident_bytes) st
        → Covered fw lim root st 0 st
    Layout-Covered root ident_bytes st hb l = record {
      tree = l.tree;
      mapped = λ y uy. absurd (omega arith);
      free = λ y ly uy.
          l.free (page_number (hhdm_base + y)) (omega arith)
            (λ x lx ux e. apart_hhdm x y lx ux (omega arith) (sym e))
            (λ x lx ux e. let low : x < 2 ^ 47 = ground arith in absurd (omega arith));
      others = λ vp h o. refl;
    }

-- Building the page tables ends, and fails only where the firmware can refuse a page. For an image between page boundaries in one half of the address space, beside the mapping of
-- physical memory, with its frames on page boundaries below 2^52,
-- with an identity mapping below 2^47 and at most 64 TiB of physical memory, the tables then
-- translate, by the processor's own walk, every address of the image to its frame, every other
-- address from 4 KiB up to the end of the identity mapping to itself, and `HHDM_BASE + y` to `y` for
-- all physical memory.
pub build_pagetables_exec-Ready :
    (fw : Firmware) (load_base min_vaddr max_vaddr ident_bytes phys_max : ℕ) (st : Store fw)
    → IsImage load_base min_vaddr max_vaddr
    → BesideHhdm min_vaddr max_vaddr
    → ident_bytes ≤ 2 ^ 47
    → phys_max ≤ 2 ^ 46
    → Meets
        (Refused fw)
        (Ready fw load_base min_vaddr max_vaddr ident_bytes phys_max)
        (build_pagetables_exec fw load_base min_vaddr max_vaddr ident_bytes phys_max st)
unfolding build_pagetables_exec take_page
build_pagetables_exec-Ready fw load_base lo hi ident_bytes phys_max st image beside hb hp =
    elim (Option-cases (fw.allocate (max_address 0x0000fffffffff000) st.firmware)) [
      | inl none_left ↦
          rw (build_pagetables_exec, none_left)
            (failed (max_address 0x0000fffffffff000, st.firmware, none_left))
      | inr ((q, f), e) ↦
          rw (build_pagetables_exec, e)
            (Meets-bind
              (map_image-Mapped fw (HhdmFlat lim) q refused lo hi (sub64 load_base lo) _
                image.lo_page image.hi_page image.not_empty image.top turn
                (clear_image fw lim hlim load_base lo hi image beside q)
                (
                  root_only fw (HhdmFlat lim) tt st.firmware f st.mem q e,
                  fresh-Shape fw (HhdmFlat lim) tt st.firmware f st.mem q e,
                ))
              λ st₁ m.
                Meets-bind
                  (map_low_ident-Layout fw (HhdmFlat lim) q refused (Clear-low fw lim hlim q)
                    load_base lo hi image st₁
                    (image-Layout fw (HhdmFlat lim) q load_base lo hi image
                      (fresh fw (HhdmFlat lim) tt st.firmware f st.mem q e) st₁
                      (fresh_empty fw (HhdmFlat lim) tt st.firmware f st.mem q e) m))
                  λ st₂ l₂.
                    Meets-bind
                      (map_high_ident-Layout fw (HhdmFlat lim) q refused (Clear-low fw lim hlim q)
                        load_base lo hi image ident_bytes st₂ hb l₂)
                      λ st₃ l₃. rw (align_up-page phys_max (omega arith)) (
                        Meets-bind
                          (map_hhdm_huge-Covered fw lim q hlim refused st₃ (omega arith) (
                            Layout-Covered fw lim hlim load_base lo hi image beside q ident_bytes
                              st₃ hb l₃))
                          λ st₄ c.
                            let (imaged, ident, covered) =
                              Covered-Ready fw lim hlim load_base lo hi image beside q ident_bytes
                                st₃ st₄ hb l₃ c in
                            meets (imaged, ident, λ y uy. covered y (omega arith))))
    ]
  where
    refused : (k : AllocateType) (s : fw.State) → fw.allocate k s ≡ none → Refused fw
    refused k s e = (k, s, e)

    lim : ℕ
    lim = page_base (phys_max + 4095)

    hlim : lim ≤ 2 ^ 46
    hlim = omega arith

    turn : hi + 4096 ≤ lo + 2 ^ 48
    turn = elim image.half [ inl low ↦ omega arith | inr high ↦ omega (arith, image.top) ]
