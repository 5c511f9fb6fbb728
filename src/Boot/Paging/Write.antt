-- ===== src/Boot/Paging/Write.antt =====
-- Writing an entry that ends a walk: one page, or one huge page, gets a new frame, and no other page.
use jotunheim.Prelude.{ℕ, suc, ◌+◌, ◌*◌, ◌%◌, ◌≡◌, ◌≢◌, ◌⊎◌, inl, inr, true, false, some, arith}
use jotunheim.Boot.Pages.{Firmware, Store}
use jotunheim.Boot.Paging.{is_huge, set_entry}
use jotunheim.Boot.Paging.Walk.{walk, above}
use jotunheim.Boot.Paging.Tables.{Owner, Shape, Agree, walk-Agree}

module _ (fw : Firmware) (Flat : ℕ → ℕ → Type 0) (root : ℕ) where
  module _ (own : Owner) (st : Store fw) (s : Shape fw Flat root own st) (t m pre i e : ℕ)
      (o : own t ≡ some (m, pre)) (fits : Flat m (pre * 512 + i) → is_huge e ≡ false)
      (ends : (n : ℕ) → m ≡ suc n → is_huge e ≡ true) where
    abbrev written : Store fw
    written = set_entry fw st t i e

    read_old : (p j : ℕ) → ((p ≡ t) × (j ≡ i)) ⊎ (written.mem p j ≡ st.mem p j)
    read_old p j = ground arith

    read_new : written.mem t i ≡ e
    read_new = ground arith

    pub set_entry-Shape : Shape fw Flat root own written
    set_entry-Shape = record {
      top = s.top;
      taken = s.taken;
      areas = s.areas;
      flat = λ p n pre' j op fl. elim (read_old p j) [
        | inr same ↦ rw same (s.flat p n pre' j op fl)
        | inl (there, at_i) ↦
            let level : n ≡ m = ground (arith, o) in
            let area : pre' ≡ pre = ground (arith, o) in
            rw (there, at_i, read_new) (fits (rw (level, area, at_i) at fl))
      ];
      link = λ p n pre' j op hj here small. elim (read_old p j) [
        | inr same ↦ rw same (s.link p n pre' j op hj (rw same at here) (rw same at small))
        | inl (there, at_i) ↦
            let huge = ends n (ground (arith, o)) in
            let read : is_huge e ≡ false = rw (there, at_i, read_new) at small in absurd cc
      ];
    }

    pub set_entry-other :
        (vp : ℕ)
        → above m vp ≢ pre * 512 + i
        → (n p : ℕ) → own p ≡ some (n, above (suc n) vp)
        → walk n written.mem p vp ≡ walk n st.mem p vp
    set_entry-other vp ne = walk-Agree s written.mem vp agree
      where
        agree : Agree s written.mem vp
        agree p n op = elim (read_old p (above n vp % 512)) [
          | inr same ↦ inl same
          | inl (there, at_i) ↦
              let level : n ≡ m = ground (arith, o) in
              let area : above (suc n) vp ≡ pre = ground (arith, o) in
              let hit : above n vp ≡ pre * 512 + i = omega arith in absurd (ne (rw level at hit))
        ]
