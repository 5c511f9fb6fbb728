-- ===== src/Boot/Paging/Page.antt =====
-- One page of `map_4k_offset` and `map_4kib_page`, seen as an update of a map from pages to frames.
use jotunheim.Prelude.{
  ℕ, ◌%◌, ◌^◌, ◌<◌, ◌≡◌, ◌≢◌, refl, sym, ◌∙◌, ap, inl, inr, not, Option, none, some, ◌==◌,
  Bool-cases, arith, bit_and, if◌then◌else◌,
}
use jotunheim.Prelude.Words.{add64}
use jotunheim.Prelude.Outcome.{Meets, meets, Meets-bind}
use jotunheim.Boot.Pages.{Firmware, AllocateType, Store, write_entry}
use jotunheim.Boot.Paging.{
  is_present, address, set_entry, addr_mask, entry_of, pt_index, map_4k_round, map_4kib_page,
}
use jotunheim.Boot.Paging.Entries.{
  IsPage, entry_of-present, entry_of-small, entry_of-address, address-IsPage,
}
use jotunheim.Boot.Paging.Walk.{walk, above, page_number}
use jotunheim.Boot.Paging.Tables.{Owner, Shape, walk-leaf, walk-absent}
use jotunheim.Boot.Paging.Leaf.{Clear, Comes, ensure_tables-Comes, pt_index-above}
use jotunheim.Boot.Paging.Write.{set_entry-Shape, set_entry-other}

-- The frame that a page is mapped to.
abbrev pub view : (fw : Firmware) → ℕ → Store fw → ℕ → Option ℕ
view fw root st = walk 3 st.mem root

-- The frame that a page has, where it has one already.
abbrev pub kept : Option ℕ → ℕ → Option ℕ
kept none f = some f
kept (some g) f = some g

module _ (fw : Firmware) (Flat : ℕ → ℕ → Type 0) (root : ℕ) where
  -- The tables have their shape, under some assignment of the areas.
  abbrev pub IsTree : Store fw → Type 0
  IsTree st = (own : Owner) × Shape fw Flat root own st

  -- The other pages of the address space are mapped as before.
  abbrev pub SameBut : ℕ → Store fw → Store fw → Type 0
  SameBut vp st st' =
      (vp' : ℕ) → vp' < 2 ^ 36 → vp' ≢ vp → view fw root st' vp' ≡ view fw root st vp'

  -- The map from pages to frames is the old one with `f` at one page.
  abbrev pub Updated : Store fw → ℕ → Option ℕ → Store fw → Type 0
  Updated st vp f st' = IsTree st' × (view fw root st' vp ≡ f) × SameBut vp st st'

  pub top_of :
      (own : Owner) (st : Store fw) (vp : ℕ)
      → Shape fw Flat root own st
      → vp < 2 ^ 36
      → own root ≡ some (3, above 4 vp)
  top_of own st vp s h = let low : above 4 vp ≡ 0 = omega arith in rw low s.top

  pub Comes-same :
      (n : ℕ) (own : Owner) (st : Store fw) (vp vp' t : ℕ) (st' : Store fw)
      → Shape fw Flat root own st
      → Comes fw Flat root own st n vp (t, st')
      → vp' < 2 ^ 36
      → view fw root st' vp' ≡ view fw root st vp'
  Comes-same n own st vp vp' t st' s (own', g, o, at) h = g.same root 3 vp' (top_of own st vp' s h)

  -- The page `phys` is entered where the walk ends.
  enter :
      (own : Owner) (st : Store fw) (va phys t : ℕ) (st' : Store fw)
      → Shape fw Flat root own st
      → Comes fw Flat root own st 0 (page_number va) (t, st')
      → IsPage phys
      → Updated st (page_number va) (some phys) (set_entry fw st' t (pt_index va) (entry_of phys))
  enter own st va phys t st' s c page =
      let (own', g, o, at) = c in
      let mem' = write_entry st'.mem t (pt_index va) (entry_of phys) in
      let read : mem' t (page_number va % 512) ≡ entry_of phys =
        ground (arith, pt_index-above va) in
      (
        (
          own',
          set_entry-Shape fw Flat root own' st' g.shape t 0 _ (pt_index va) _ o
              (λ fl. entry_of-small phys page) (λ n e. absurd (omega arith)),
        ),
        at mem' (page_number va) (λ p l pre j op up. elsewhere own' l pre p j op o up) refl
            ∙ walk-leaf mem' t (page_number va) (entry_of phys) read (entry_of-present phys page)
            ∙ ap some (entry_of-address phys page),
        λ vp' h ne.
            set_entry-other fw Flat root own' st' g.shape t 0 _ (pt_index va) _ o
              (λ fl. entry_of-small phys page) (λ n e. absurd (omega arith)) vp'
              (λ e. ne (omega (arith, pt_index-above va))) 3 root (top_of own' st' vp' g.shape h)
            ∙ Comes-same 0 own st (page_number va) vp' t st' s c h,
      )
    where
      elsewhere :
          (own' : Owner) (l pre p j : ℕ)
          → own' p ≡ some (l, pre)
          → own' t ≡ some (0, above 1 (page_number va))
          → 0 < l
          → write_entry st'.mem t (pt_index va) (entry_of phys) p j ≡ st'.mem p j
      elsewhere own' l pre p j op o up = elim (Bool-cases (p == t)) [
        | inr other ↦ rw other refl
        | inl same ↦ absurd (ground (arith, o))
      ]

  module _ {F : Type 0}
      (refused : (k : AllocateType) (s : fw.State) → fw.allocate k s ≡ none → F) where
    pub map_4k_round-Updated :
        (delta va : ℕ) (st : Store fw)
        → Clear fw Flat root (page_number va)
        → IsTree st
        → Meets F
            (Updated st (page_number va) (some (address (add64 va delta))))
            (map_4k_round fw root delta va st)
    unfolding map_4k_round
    map_4k_round-Updated delta va st clear (own, s) =
        Meets-bind (ensure_tables-Comes fw Flat root refused va own st s clear) λ (t, st') c.
          meets
            (enter own st va (address (add64 va delta)) t st' s c (address-IsPage (add64 va delta)))

    pub map_4kib_page-Updated :
        (va phys : ℕ) (st : Store fw)
        → Clear fw Flat root (page_number va)
        → IsTree st
        → Meets F
            (Updated st (page_number va) (kept (view fw root st (page_number va)) (address phys)))
            (map_4kib_page fw root va phys st)
    unfolding map_4kib_page
    map_4kib_page-Updated va phys st clear (own, s) =
        Meets-bind (ensure_tables-Comes fw Flat root refused va own st s clear)
          λ (t, st') c. meets (entered t st' c)
      where
        entered :
            (t : ℕ) (st' : Store fw)
            → Comes fw Flat root own st 0 (page_number va) (t, st')
            → Updated st (page_number va) (kept (view fw root st (page_number va)) (address phys)) (
                if not (is_present (st'.mem t (pt_index va)))
                then set_entry fw st' t (pt_index va) (entry_of (bit_and phys addr_mask))
                else st')
        entered t st' c =
            let (own', g, o, at) = c in
            let old : view fw root st' (page_number va) ≡ view fw root st (page_number va) =
              Comes-same 0 own st (page_number va) (page_number va) t st' s c (omega arith) in
            let here : view fw root st' (page_number va) ≡ walk 0 st'.mem t (page_number va) =
              at st'.mem (page_number va) (λ p l pre j op up. refl) refl in
            let index : page_number va % 512 ≡ pt_index va = omega (arith, pt_index-above va) in
            elim (Bool-cases (is_present (st'.mem t (pt_index va)))) [
              | inr absent ↦
                  let empty : view fw root st (page_number va) ≡ none =
                    sym old ∙ here ∙ walk-absent 0 st'.mem t (page_number va) (rw index absent) in
                  rw (absent, empty)
                    (enter own st va (address phys) t st' s c (address-IsPage phys))
              | inl there ↦
                  let full =
                    sym old
                    ∙ here
                    ∙ walk-leaf st'.mem t (page_number va) _ (ap (st'.mem t) index) there in
                  rw (there, full)
                    (
                      (own', g.shape),
                      old ∙ full,
                      λ vp' h ne. Comes-same 0 own st (page_number va) vp' t st' s c h,
                    )
            ]
