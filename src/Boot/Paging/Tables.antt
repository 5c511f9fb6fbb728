-- ===== src/Boot/Paging/Tables.antt =====
-- The tables as a tree. Every page that holds a table is owned: it is the table of one level for one
-- area of the address space, and the tables below it own the areas of their entries.
use jotunheim.Prelude.{
  ℕ, zero, suc, ◌+◌, ◌*◌, ◌%◌, ◌<◌, ◌≡◌, refl, sym, ◌∙◌, ◌⊎◌, inl, inr, true, false, Option, none,
  some, Bool-cases, arith,
}
use jotunheim.Boot.Pages.{Firmware, Store, Memory}
use jotunheim.Boot.Paging.{is_present, is_huge, address}
use jotunheim.Boot.Paging.Walk.{walk, above, huge_frame}

-- The level and the area of each table.
abbrev pub Owner : Type 0
Owner = ℕ → Option (ℕ × ℕ)

-- Entry `j` of the table `p` points to the table `q`.
abbrev pub Points : Memory → ℕ → ℕ → ℕ → Type 0
Points mem p j q =
    (is_present (mem p j) ≡ true) × (is_huge (mem p j) ≡ false) × (address (mem p j) ≡ q)

-- `Flat n area`: the entry of level `n` for that area is no huge page. Tables stand below such entries
-- only.
pub record Shape (fw : Firmware) (Flat : ℕ → ℕ → Type 0) (root : ℕ) (own : Owner) (st : Store fw)
    : Type 0 where
  pub top : own root ≡ some (3, 0)
  pub taken : (p n pre : ℕ) → own p ≡ some (n, pre) → fw.Taken st.firmware p
  pub areas : (p n pre : ℕ) → own p ≡ some (n, pre) → Flat (suc n) pre
  pub flat :
      (p n pre i : ℕ)
      → own p ≡ some (n, pre)
      → Flat n (pre * 512 + i)
      → is_huge (st.mem p i) ≡ false
  pub link :
      (p n pre i : ℕ)
      → own p ≡ some (suc n, pre)
      → i < 512
      → is_present (st.mem p i) ≡ true
      → is_huge (st.mem p i) ≡ false
      → own (address (st.mem p i)) ≡ some (n, pre * 512 + i)

-- An empty table maps nothing.
pub walk-empty :
    (n : ℕ) (mem : Memory) (q vp : ℕ) → ((j : ℕ) → mem q j ≡ 0) → walk n mem q vp ≡ none
unfolding walk
walk-empty zero mem q vp h = rw (h (vp % 512)) refl
walk-empty (suc n) mem q vp h = rw (h (above (suc n) vp % 512)) refl

pub walk-absent :
    (n : ℕ) (mem : Memory) (p vp : ℕ)
    → is_present (mem p (above n vp % 512)) ≡ false
    → walk n mem p vp ≡ none
unfolding walk
walk-absent zero mem p vp h = rw h
walk-absent (suc n) mem p vp h = rw h

pub walk-leaf :
    (mem : Memory) (p vp e : ℕ)
    → mem p (vp % 512) ≡ e
    → is_present e ≡ true
    → walk 0 mem p vp ≡ some (address e)
unfolding walk
walk-leaf mem p vp e at h = rw (at, h)

pub walk-huge :
    (n : ℕ) (mem : Memory) (p vp e : ℕ)
    → mem p (above (suc n) vp % 512) ≡ e
    → is_present e ≡ true
    → is_huge e ≡ true
    → walk (suc n) mem p vp ≡ some (huge_frame (suc n) e vp)
unfolding walk
walk-huge n mem p vp e at h k = rw (at, h, k)

pub walk-Points :
    (n : ℕ) (mem : Memory) (p q vp : ℕ)
    → Points mem p (above (suc n) vp % 512) q
    → walk (suc n) mem p vp ≡ walk n mem q vp
unfolding walk
walk-Points n mem p q vp (here, small, e) = rw (here, small, e)

module _ {fw : Firmware} {Flat : ℕ → ℕ → Type 0} {root : ℕ} {own : Owner} {st : Store fw}
    (shape : Shape fw Flat root own st) (mem : Memory) (vp : ℕ) where
  -- The walk for `vp` reads the same entry in every owned table, or ends there without a frame.
  abbrev pub Agree : Type 0
  Agree =
      (p n : ℕ)
      → own p ≡ some (n, above (suc n) vp)
      → (mem p (above n vp % 512) ≡ st.mem p (above n vp % 512))
        ⊎ ((walk n mem p vp ≡ none) × (walk n st.mem p vp ≡ none))

  pub walk-Agree :
      Agree → (n p : ℕ) → own p ≡ some (n, above (suc n) vp) → walk n mem p vp ≡ walk n st.mem p vp
  unfolding walk
  walk-Agree agree zero p o = elim (agree p 0 o) [ inl e ↦ rw e | inr (e, e') ↦ e ∙ sym e' ]
  walk-Agree agree (suc n) p o = elim (agree p (suc n) o) [
    | inr (e, e') ↦ e ∙ sym e'
    | inl e ↦ elim (Bool-cases (is_present (st.mem p (above (suc n) vp % 512)))) [
      | inr absent ↦ rw (e, absent)
      | inl here ↦ elim (Bool-cases (is_huge (st.mem p (above (suc n) vp % 512)))) [
        | inl huge ↦ rw (e, here, huge)
        | inr small ↦ rw (e, here, small) (walk-Agree agree n _ (owned here small))
      ]
    ]
  ]
    where
      owned :
          is_present (st.mem p (above (suc n) vp % 512)) ≡ true
          → is_huge (st.mem p (above (suc n) vp % 512)) ≡ false
          → own (address (st.mem p (above (suc n) vp % 512))) ≡ some (n, above (suc n) vp)
      owned here small =
          let area : above (suc (suc n)) vp * 512 + above (suc n) vp % 512 ≡ above (suc n) vp =
            omega arith in
          rw area at (shape.link p n (above (suc (suc n)) vp) _ o (omega arith) here small)
