-- ===== src/Mem/Mapping/Pages.antt =====
-- What one call of `map_to` does to the pages, and a range of pages, one call for each:
-- jotunheimkernel/src/mem/mod.rs.
use jotunheim.Prelude.{
  ap, ℕ, suc, ◌+◌, ◌-◌, ◌*◌, ◌≤◌, ◌<◌, ◌≡◌, ◌≢◌, refl, sym, ◌∙◌, ◌⊎◌, inl, inr, Bool-cases, Bool,
  none, some, ltb, leb, ◌==◌, ◌&&◌, if◌then◌else◌, arith,
}
use jotunheim.Prelude.Outcome.{Meets, meets, failed}
use jotunheim.Mem.Mapping.{
  FrameSource, Mapper, MapTo, mapped, already_mapped, refused, Flag, State, unwrap,
}

module _ (fs : FrameSource) (m : Mapper fs) where
  open m use {translate, map_to, map_to-mapped, map_to-already}

  -- The tables can fail to map a page for another reason than that it is mapped.
  abbrev pub Refusing : Type 0
  Refusing =
      (page frame : ℕ) × (flags : Flag → Bool) × (s : State fs m) × ((map_to page frame flags s).0
        ≡ refused)

  -- One page leads to the frame, the others as before.
  abbrev pub OnePage : State fs m → (page frame : ℕ) → State fs m → Type 0
  OnePage s page frame s' =
      (q : ℕ) → translate s'.0 q ≡ (if page == q then some frame else translate s.0 q)

  pub unwrap-OnePage :
      (page frame : ℕ) (flags : Flag → Bool) (s : State fs m)
      → translate s.0 page ≡ none
      → Meets Refusing (OnePage s page frame) (unwrap fs m (map_to page frame flags s))
  unwrap-OnePage page frame flags s fresh = by_result (map_to page frame flags s) refl
    where
      by_result :
          (r : MapTo × State fs m)
          → map_to page frame flags s ≡ r
          → Meets Refusing (OnePage s page frame) (unwrap fs m r)
      by_result (mapped, s') e = meets (map_to-mapped page frame flags s s' e)
      by_result (already_mapped, s') e = absurd ((map_to-already page frame flags s s' e).0 fresh)
      by_result (refused, s') e =
          failed (page, frame, flags, s, ap (λ (r : MapTo × State fs m). r.0) e)

  -- None of the `n` pages from `lo` on is mapped.
  abbrev pub Fresh : State fs m → (lo n : ℕ) → Type 0
  Fresh s lo n = (q : ℕ) → lo ≤ q → q < lo + n → translate s.0 q ≡ none

  pub Fresh-tail :
      (s s1 : State fs m) (lo n frame : ℕ)
      → Fresh s lo (suc n)
      → OnePage s lo frame s1
      → Fresh s1 (lo + 1) n
  Fresh-tail s s1 lo n frame fresh one q a b =
      ground (arith, one q, fresh q (omega arith) (omega arith))

  -- `n` pages from `lo` on lead to the frames from `pa` on, the others as before.
  abbrev pub Window : State fs m → (lo n pa : ℕ) → State fs m → Type 0
  Window s lo n pa s' =
      (q : ℕ)
      → translate s'.0 q
        ≡ (if leb lo q && ltb q (lo + n) then some (pa + (q - lo) * 4096) else translate s.0 q)

  pub Window-cons :
      (s s1 s2 : State fs m) (lo n pa : ℕ)
      → OnePage s lo pa s1
      → Window s1 (lo + 1) n (pa + 4096) s2
      → Window s lo (suc n) pa s2
  Window-cons s s1 s2 lo n pa first others q = ground (arith, first q, others q)

  -- The pages from `lo` on are mapped, `n` of them; those that were mapped before, and those outside,
  -- lead where they led.
  abbrev pub Backed : State fs m → (lo n : ℕ) → State fs m → Type 0
  Backed s lo n s' =
      ((q : ℕ) → lo ≤ q → q < lo + n → translate s'.0 q ≢ none)
      × ((q : ℕ) → translate s.0 q ≢ none → translate s'.0 q ≡ translate s.0 q)
      × ((q : ℕ) → (q < lo) ⊎ (lo + n ≤ q) → translate s'.0 q ≡ translate s.0 q)

  pub Backed-nil : (s : State fs m) (lo : ℕ) → Backed s lo 0 s
  Backed-nil s lo = ((λ q a b. absurd (omega arith)), (λ q h. refl), (λ q h. refl))

  pub Backed-cons :
      (s s1 s2 : State fs m) (lo n : ℕ)
      → Backed s lo 1 s1
      → Backed s1 (lo + 1) n s2
      → Backed s lo (suc n) s2
  Backed-cons s s1 s2 lo n (there, kept, out) (there', kept', out') = (
    (λ q a b. elim (Bool-cases (q == lo)) [
      | inl first ↦ λ e. there q a (ground arith) (sym (kept' q (there q a (ground arith))) ∙ e)
      | inr later ↦ there' q (ground arith) (omega arith)
    ]),
    (λ q h. kept' q (λ e. h (sym (kept q h) ∙ e)) ∙ kept q h),
    (λ q h. out' q (ground arith) ∙ out q (ground arith)),
  )
