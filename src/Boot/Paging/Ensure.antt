-- ===== src/Boot/Paging/Ensure.antt =====
-- The `ensure_` functions: they find or add a table, and change no translation.
use jotunheim.Prelude.{
  ℕ, suc, ◌+◌, ◌*◌, ◌%◌, ◌<◌, ◌≡◌, ◌≢◌, refl, ◌∙◌, ◌⊎◌, inl, inr, Bool, true, false, none, some,
  ◌==◌, if◌then◌else◌, Bool-cases, Option-cases, arith,
}
use jotunheim.Prelude.Outcome.{Meets, meets, failed}
use jotunheim.Boot.Pages.{
  Firmware, AllocateType, Store, take_page, write_entry, zero_page, any_pages,
}
use jotunheim.Boot.Paging.{is_present, is_huge, address, entry_of, ensure_table}
use jotunheim.Boot.Paging.Entries.{IsPage, entry_of-present, entry_of-small, entry_of-address}
use jotunheim.Boot.Paging.Walk.{walk, above}
use jotunheim.Boot.Paging.Tables.{
  Owner, Points, Shape, walk-empty, walk-absent, walk-Points, Agree, walk-Agree,
}

module _ (fw : Firmware) (Flat : ℕ → ℕ → Type 0) (root : ℕ) where
  -- The store `st'` has the same translations as `st`, and its tree of tables has grown.
  pub record Grown (own : Owner) (st : Store fw) (own' : Owner) (st' : Store fw) : Type 0 where
    pub shape : Shape fw Flat root own' st'
    pub more : (p n pre : ℕ) → own p ≡ some (n, pre) → own' p ≡ some (n, pre)
    pub same :
        (p n vp : ℕ) → own p ≡ some (n, above (suc n) vp) → walk n st'.mem p vp ≡ walk n st.mem p vp

  -- The table `q` is the one that entry `i` of the table `t` of the next level points to.
  abbrev pub Reached : Owner → Store fw → ℕ → ℕ → ℕ → ℕ → ℕ × Store fw → Type 0
  Reached own st n pre t i (q, st') =
      (own' : Owner) × Grown own st own' st'
      × (own' q ≡ some (n, pre * 512 + i))
      × Points st'.mem t i q
      × ((p l pre' j : ℕ) → own p ≡ some (l, pre') → l ≢ suc n → st'.mem p j ≡ st.mem p j)

  pub Grown-refl : (own : Owner) (st : Store fw) → Shape fw Flat root own st → Grown own st own st
  Grown-refl own st s = record { shape = s; more = λ p n pre o. o; same = λ p n vp o. refl }

  pub Grown-trans :
      (own own' own'' : Owner) (st st' st'' : Store fw)
      → Grown own st own' st'
      → Grown own' st' own'' st''
      → Grown own st own'' st''
  Grown-trans own own' own'' st st' st'' g h = record {
    shape = h.shape;
    more = λ p n pre o. h.more p n pre (g.more p n pre o);
    same = λ p n vp o. h.same p n vp (g.more p n _ o) ∙ g.same p n vp o;
  }

  module _ (own : Owner) (st : Store fw) (s : Shape fw Flat root own st) (t n pre i : ℕ)
      (o : own t ≡ some (suc n, pre)) (hi : i < 512) (q : ℕ) (f : fw.State)
      (e : fw.allocate any_pages st.firmware ≡ some (q, f))
      (absent : is_present (st.mem t i) ≡ false) (fl : Flat (suc n) (pre * 512 + i)) where
    abbrev added : Store fw
    added = record { firmware = f; mem = write_entry (zero_page st.mem q) t i (entry_of q) }

    abbrev adopt : Owner
    adopt p = if p == q then some (n, pre * 512 + i) else own p

    not_fresh : (p m pre' : ℕ) → own p ≡ some (m, pre') → p ≢ q
    not_fresh p m pre' op same =
        fw.allocate-fresh any_pages st.firmware f q e (rw same at (s.taken p m pre' op))

    page : IsPage q
    page = fw.allocate-page any_pages st.firmware f q e

    read_old :
        (p m pre' j : ℕ)
        → own p ≡ some (m, pre')
        → ((p ≡ t) × (j ≡ i)) ⊎ (added.mem p j ≡ st.mem p j)
    read_old p m pre' j op = let ne = not_fresh p m pre' op in ground arith

    added-here : Points added.mem t i q
    added-here = (
      ground (arith, entry_of-present q page),
      ground (arith, entry_of-small q page),
      ground (arith, entry_of-address q page),
    )

    Points-at : (j : ℕ) → j ≡ i → Points added.mem t j q
    Points-at j at_i = rw at_i added-here

    empty_table : (j : ℕ) → added.mem q j ≡ 0
    empty_table j = let ne = not_fresh t (suc n) pre o in ground arith

    same_table : (p m pre' : ℕ) → own p ≡ some (m, pre') → p ≡ t → (m ≡ suc n) × (pre' ≡ pre)
    same_table p m pre' op there = (ground (arith, o), ground (arith, o))

    kept_owner : (p m pre' : ℕ) → own p ≡ some (m, pre') → adopt p ≡ some (m, pre')
    kept_owner p m pre' op = let ne = not_fresh p m pre' op in ground (arith, op)

    added-elsewhere :
        (p l pre' j : ℕ) → own p ≡ some (l, pre') → l ≢ suc n → added.mem p j ≡ st.mem p j
    added-elsewhere p l pre' j op ne = elim (read_old p l pre' j op) [
      | inr same ↦ same
      | inl (there, at_i) ↦ absurd (ne (same_table p l pre' op there).0)
    ]

    added-Shape : Shape fw Flat root adopt added
    added-Shape = record {
      top = let ne = not_fresh root 3 0 s.top in ground (arith, s.top);
      taken = λ p m pre' op. elim (Bool-cases (p == q)) [
        | inl new ↦
            let same : p ≡ q = ground arith in
            rw same (fw.allocate-taken any_pages st.firmware f q e)
        | inr old ↦
            fw.allocate-keeps any_pages st.firmware f q p e (s.taken p m pre' (rw old at op))
      ];
      areas = λ p m pre' op. elim (Bool-cases (p == q)) [
        | inr old ↦ s.areas p m pre' (rw old at op)
        | inl new ↦
            let found = rw new at op in
            let level : m ≡ n = ground (arith, found) in
            let area : pre' ≡ pre * 512 + i = ground (arith, found) in rw (level, area) fl
      ];
      flat = λ p m pre' j op fl'. elim (Bool-cases (p == q)) [
        | inl new ↦ let same : p ≡ q = ground arith in rw (same, empty_table j) refl
        | inr old ↦ elim (read_old p m pre' j (rw old at op)) [
          | inl (there, at_i) ↦ rw (there, at_i) (added-here.1)
          | inr same ↦ rw same (s.flat p m pre' j (rw old at op) fl')
        ]
      ];
      link = λ p m pre' j op hj here small. elim (Bool-cases (p == q)) [
        | inl new ↦
            let same : p ≡ q = ground arith in
            let read : is_present (added.mem q j) ≡ true = rw same at here in
            absurd (ground (arith, empty_table j, read))
        | inr old ↦ elim (read_old p (suc m) pre' j (rw old at op)) [
          | inl (there, at_i) ↦
              let (level, area) : (suc m ≡ suc n) × (pre' ≡ pre) =
                same_table p (suc m) pre' (rw old at op) there in
              rw (there, at_i, added-here.2) (ground (arith))
          | inr same ↦
              let below =
                s.link p m pre' j (rw old at op) hj (rw same at here) (rw same at small) in
              rw same (kept_owner _ m _ below)
        ]
      ];
    }

    added-Grown : Grown own st adopt added
    added-Grown = record {
      shape = added-Shape;
      more = kept_owner;
      same = λ p m vp op. walk-Agree s added.mem vp (agree vp) m p op;
    }
      where
        agree : (vp : ℕ) → Agree s added.mem vp
        agree vp p m op = elim (read_old p m (above (suc m) vp) (above m vp % 512) op) [
          | inr same ↦ inl same
          | inl (there, at_i) ↦
              let (level, area) : (m ≡ suc n) × (above (suc m) vp ≡ pre) =
                same_table p m (above (suc m) vp) op there in
              inr (
                rw (there, level)
                    (walk-Points n added.mem t q vp
                        (Points-at (above (suc n) vp % 512) (rw level at at_i))
                      ∙ walk-empty n added.mem q vp empty_table),
                walk-absent m st.mem p vp (rw (there, at_i) absent),
              )
        ]

  -- Where no huge page is in the way, a table is found, or a new one is added, and no translation
  -- changes. An error has the reason that the firmware gave no page.
  module _ {F : Type 0}
      (refused : (k : AllocateType) (s : fw.State) → fw.allocate k s ≡ none → F) where
    pub ensure_table-Reached :
        (rejects : Bool) (own : Owner) (st : Store fw) (t n pre i : ℕ)
        → Shape fw Flat root own st
        → own t ≡ some (suc n, pre)
        → i < 512
        → Flat (suc n) (pre * 512 + i)
        → Meets F (Reached own st n pre t i) (ensure_table fw rejects t i st)
    unfolding ensure_table take_page
    ensure_table-Reached rejects own st t n pre i s o hi fl =
        elim (Bool-cases (is_present (st.mem t i))) [
          | inr absent ↦ elim (Option-cases (fw.allocate any_pages st.firmware)) [
            | inl none_left ↦
                rw (absent, none_left) (failed (refused any_pages st.firmware none_left))
            | inr ((q, f), e) ↦
                rw (absent, e)
                  (meets (
                    adopt own st s t n pre i o hi q f e absent fl,
                    added-Grown own st s t n pre i o hi q f e absent fl,
                    ground (arith),
                    added-here own st s t n pre i o hi q f e absent fl,
                    added-elsewhere own st s t n pre i o hi q f e absent fl,
                  ))
          ]
          | inl here ↦ elim (Bool-cases (is_huge (st.mem t i))) [
            | inr small ↦ elim (Bool-cases rejects) [
              | inl strict ↦ rw (here, strict, small) (meets (found here small))
              | inr lax ↦ rw (here, lax) (meets (found here small))
            ]
            | inl huge ↦ let small = s.flat t (suc n) pre i o fl in absurd cc
          ]
        ]
      where
        found :
            is_present (st.mem t i) ≡ true
            → is_huge (st.mem t i) ≡ false
            → Reached own st n pre t i (address (st.mem t i), st)
        found here small = (
          own,
          Grown-refl own st s,
          s.link t n pre i o hi here small,
          (here, small, refl),
          λ p l pre' j op ne. refl,
        )
