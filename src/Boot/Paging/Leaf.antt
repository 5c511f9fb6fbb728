-- ===== src/Boot/Paging/Leaf.antt =====
-- The walk down to a page's last table, and the write of an entry that ends a walk.
use jotunheim.Prelude.{
  ℕ, suc, ◌+◌, ◌*◌, ◌/◌, ◌%◌, ◌^◌, ◌<◌, ◌≡◌, refl, sym, ◌∙◌, Bool, true, false, none, some, arith,
}
use jotunheim.Prelude.Outcome.{Meets, Meets-bind, Meets-map}
use jotunheim.Boot.Pages.{Firmware, AllocateType, Store, Memory}
use jotunheim.Boot.Paging.{ensure_table, ensure_tables, pml4_index, pdpt_index, pd_index, pt_index}
use jotunheim.Boot.Paging.Entries.{bit_and_index}
use jotunheim.Boot.Paging.Walk.{walk, above, page_number}
use jotunheim.Boot.Paging.Tables.{Owner, Shape, walk-Points}
use jotunheim.Boot.Paging.Ensure.{Grown, Grown-refl, Grown-trans, ensure_table-Reached}

pub pml4_index-above : (va : ℕ) → pml4_index va ≡ above 3 (page_number va) % 512
pml4_index-above va = omega (arith, bit_and_index (va / 2 ^ 39))

pub pdpt_index-above : (va : ℕ) → pdpt_index va ≡ above 2 (page_number va) % 512
pdpt_index-above va = omega (arith, bit_and_index (va / 2 ^ 30))

pub pd_index-above : (va : ℕ) → pd_index va ≡ above 1 (page_number va) % 512
pd_index-above va = omega (arith, bit_and_index (va / 2 ^ 21))

pub pt_index-above : (va : ℕ) → pt_index va ≡ above 0 (page_number va) % 512
pt_index-above va = omega (arith, bit_and_index (va / 2 ^ 12))

pub above-page_number : (va : ℕ) → above 4 (page_number va) ≡ 0
above-page_number va = omega arith

module _ (fw : Firmware) (Flat : ℕ → ℕ → Type 0) (root : ℕ) where
  -- The memory has the tables above level `n` as the store has them.
  abbrev pub SameAbove : ℕ → Owner → Store fw → Memory → Type 0
  SameAbove n own st mem = (p l pre j : ℕ) → own p ≡ some (l, pre) → n < l → mem p j ≡ st.mem p j

  -- No huge page lies at or above the page.
  abbrev pub Clear : ℕ → Type 0
  Clear vp = (n : ℕ) → Flat (suc n) (above (suc n) vp)

  -- The walk for `vp`, and for the pages that share its table of level `n`, comes to that table `t`.
  abbrev pub Comes : Owner → Store fw → ℕ → ℕ → ℕ × Store fw → Type 0
  Comes own st n vp (t, st') =
      (own' : Owner) × Grown fw Flat root own st own' st'
      × (own' t ≡ some (n, above (suc n) vp))
      × ((mem : Memory) (vp' : ℕ)
          → SameAbove n own' st' mem
          → above (suc n) vp' ≡ above (suc n) vp
          → walk 3 mem root vp' ≡ walk n mem t vp')

  module _ {F : Type 0}
      (refused : (k : AllocateType) (s : fw.State) → fw.allocate k s ≡ none → F) where
    -- One table further down.
    pub ensure_table-Comes :
        (rejects : Bool) (n vp i : ℕ) (own : Owner) (st : Store fw) (t : ℕ) (st' : Store fw)
        → Comes own st (suc n) vp (t, st')
        → i ≡ above (suc n) vp % 512
        → Flat (suc n) (above (suc n) vp)
        → Meets F (Comes own st n vp) (ensure_table fw rejects t i st')
    ensure_table-Comes rejects n vp i own st t st' (own', g, o, at) hi fl =
        Meets-map
          (ensure_table-Reached fw Flat root refused rejects own' st' t n (above (suc (suc n)) vp) i
            g.shape o (omega arith) (rw level fl))
          λ (q, st'') (own'', h, oq, points, elsewhere). (
            own'',
            Grown-trans fw Flat root own own' own'' st st' st'' g h,
            rw area at oq,
            λ mem vp' above_n near.
                at mem vp'
                  (λ p l pre j op up.
                    above_n p l pre j (h.more p l pre op) (omega arith)
                    ∙ elsewhere p l pre j op (λ e. omega arith))
                  (omega arith)
                ∙ walk-Points n mem t q vp' (
                    rw
                      (
                        above_n t (suc n) _ (above (suc n) vp' % 512) (h.more t (suc n) _ o)
                            (omega arith),
                        near,
                        sym hi,
                      )
                      points),
          )
      where
        level : above (suc (suc n)) vp * 512 + i ≡ above (suc n) vp
        level = omega arith

        area : above (suc (suc n)) vp * 512 + i ≡ above (suc n) vp
        area = omega arith

    -- The three tables of an address, one below the other.
    pub ensure_tables-Comes :
        (va : ℕ) (own : Owner) (st : Store fw)
        → Shape fw Flat root own st
        → Clear (page_number va)
        → Meets F (Comes own st 0 (page_number va)) (ensure_tables fw root va st)
    unfolding ensure_tables
    ensure_tables-Comes va own st s fl =
        Meets-bind
          (ensure_table-Comes false 2 (page_number va) (pml4_index va) own st root st
            (
              own,
              Grown-refl fw Flat root own st s,
              rw (above-page_number va) s.top,
              λ mem vp' h e. refl,
            )
            (pml4_index-above va) (fl 2))
          λ (pdpt, st₁) c₁.
            Meets-bind
              (ensure_table-Comes true 1 (page_number va) (pdpt_index va) own st pdpt st₁ c₁
                (pdpt_index-above va) (fl 1))
              λ (pd, st₂) c₂.
                ensure_table-Comes true 0 (page_number va) (pd_index va) own st pd st₂ c₂
                  (pd_index-above va) (fl 0)
