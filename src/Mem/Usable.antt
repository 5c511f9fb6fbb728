-- ===== src/Mem/Usable.antt =====
-- The second source of frames: the usable ranges of the memory map, `seed_usable_from_mmap` and
-- `fallback_take_frame` of jotunheimkernel/src/mem/mod.rs. `reserved` is `is_reserved_page`.
use jotunheim.Prelude.{
  ℕ, zero, suc, ◌+◌, ◌-◌, ◌/◌, ◌≤◌, ◌<◌, ◌≡◌, refl, sym, ap, ◌∙◌, ◌⊎◌, inl, inr, Bool, false, not,
  Option, none, some, List, [], ◌∷◌, arith, ltb, leb, ◌==◌, if◌then◌else◌, bit_and, Bool-cases,
  Option-cases,
}
use jotunheim.Prelude.Lists.{length, All}
use jotunheim.Prelude.Words.{u64_mod, add64, not64}
use jotunheim.BootInfo.{BootInfo, MemoryRegion}
use jotunheim.Mem.BoundedVec.{BoundedVec}

abbrev pub max_usable : ℕ
max_usable = 256

-- The pages of one range: the first that is not reserved, and where the rest of the range begins.
-- `none` outside: the fuel ran out.
unfoldable pub scan_range : (ℕ → Bool) → ℕ → ℕ → ℕ → Option (Option (ℕ × ℕ))
scan_range reserved zero s e = none
scan_range reserved (suc fuel) s e =
    let s' = add64 s 0x1000 in
    let rest = scan_range reserved fuel s' e in
    if not (leb s' e) then some none else if not (reserved s) then some (some (s, s')) else rest

module _ (vec : BoundedVec (ℕ × ℕ) max_usable) where
  open vec use {Carrier, empty, to_list, push, pop, pop_items}

  -- `v.push(..).ok()`
  abbrev pub push_ok : Carrier → ℕ × ℕ → Carrier
  push_ok v r = elim (push v r) [ none ↦ v | some v' ↦ v' ]

  unfoldable pub seed_regions : List MemoryRegion → Carrier → Carrier
  seed_regions [] v = v
  seed_regions (mr ∷ mrs) v =
      let s = bit_and (add64 mr.phys_start 0xfff) (not64 0xfff) in
      let e = bit_and (add64 mr.phys_start mr.len) (not64 0xfff) in
      seed_regions mrs (if not (mr.typ == 1) then v else if leb e s then v else push_ok v (s, e))

  unfoldable pub seed_usable_from_mmap : BootInfo → Carrier
  seed_usable_from_mmap boot = seed_regions boot.memory_map empty

  -- The ranges are taken from the newest on; one that is used up is dropped.
  unfoldable pub take_loop : (ℕ → Bool) → ℕ → Carrier → Option (Option ℕ × Carrier)
  take_loop reserved zero v = none
  take_loop reserved (suc fuel) v = elim (pop v) [
    | none ↦ some (none, v)
    | some ((s, e), v') ↦ elim (scan_range reserved (suc ((e - s) / 4096)) s e) [
      | none ↦ none
      | some none ↦ take_loop reserved fuel v'
      | some (some (cand, s')) ↦ some (some cand, if ltb s' e then push_ok v' (s', e) else v')
    ]
  ]

  unfoldable pub fallback_take_frame : (ℕ → Bool) → Carrier → Option (Option ℕ × Carrier)
  fallback_take_frame reserved v = take_loop reserved (suc (length (to_list v))) v

  -- A range that ends a page before the end of the address space at the latest.
  abbrev pub IsUsable : ℕ × ℕ → Type 0
  IsUsable (s, e) = (s ≤ e) × (e + 0x1000 < u64_mod)

  -- The frame is a page of the range that is not reserved.
  abbrev pub IsPageOf : (ℕ → Bool) → ℕ → ℕ × ℕ → Type 0
  IsPageOf reserved frame (s, e) = (s ≤ frame) × (frame + 4096 ≤ e) × (reserved frame ≡ false)

  abbrev pub Scanned : (ℕ → Bool) → ℕ × ℕ → Option (ℕ × ℕ) → Type 0
  Scanned reserved r none = Unit
  Scanned reserved r (some (cand, s')) = IsPageOf reserved cand r × (s' ≡ cand + 4096)

  pub scan_range-Scanned :
      (reserved : ℕ → Bool) (fuel s e : ℕ)
      → IsUsable (s, e)
      → (e - s) / 4096 < fuel
      → (r : Option (ℕ × ℕ)) × (scan_range reserved fuel s e ≡ some r) × Scanned reserved (s, e) r
  unfolding scan_range
  scan_range-Scanned reserved zero s e u h = absurd (omega arith)
  scan_range-Scanned reserved (suc fuel) s e u h = elim (Bool-cases (leb (add64 s 0x1000) e)) [
    | inr past ↦ (none, ground arith, tt)
    | inl room ↦ elim (Bool-cases (reserved s)) [
      | inr free ↦ (
        some (s, add64 s 0x1000),
        ground arith,
        ((omega arith, ground arith, free), ground arith),
      )
      | inl taken ↦
          let (r, eq, at) =
            scan_range-Scanned reserved fuel (add64 s 0x1000) e (ground arith, omega arith)
              (ground arith) in
          (r, ground arith, widen r at)
    ]
  ]
    where
      widen :
          (r : Option (ℕ × ℕ)) → Scanned reserved (add64 s 0x1000, e) r → Scanned reserved (s, e) r
      widen none at = tt
      widen (some (cand, s')) at = ((ground (arith, at.0), at.0.1, at.0.2), at.1)

  -- Some range of the list has the frame as a page.
  abbrev pub IsPageOfOne : (ℕ → Bool) → ℕ → List (ℕ × ℕ) → Type 0
  IsPageOfOne reserved frame [] = ⊥
  IsPageOfOne reserved frame (r ∷ rs) = IsPageOf reserved frame r ⊎ IsPageOfOne reserved frame rs

  abbrev pub Taken : (ℕ → Bool) → List (ℕ × ℕ) → Option ℕ → Type 0
  Taken reserved rs none = Unit
  Taken reserved rs (some frame) = IsPageOfOne reserved frame rs

  take_loop-Taken :
      (reserved : ℕ → Bool) (fuel : ℕ) (v : Carrier) (rs : List (ℕ × ℕ))
      → to_list v ≡ rs
      → All IsUsable rs
      → length rs < fuel
      → (o : Option ℕ) × (v' : Carrier) × (take_loop reserved fuel v ≡ some (o, v'))
        × Taken reserved rs o
  unfolding take_loop
  take_loop-Taken reserved zero v rs items usable h = absurd (omega arith)
  take_loop-Taken reserved (suc fuel) v rs items usable h = elim (pop_items v) [
    | inl (nothing_left, p) ↦ (none, v, rw (p, take_loop) refl, tt)
    | inr ((s, e), v', cons, p) ↦
        let split : rs ≡ (s, e) ∷ to_list v' = sym items ∙ cons in
        let (first, others) : All IsUsable ((s, e) ∷ to_list v') = rw split at usable in
        let (r, eq, at) =
          scan_range-Scanned reserved (suc ((e - s) / 4096)) s e first (omega arith) in
        elim (Option-cases r) [
          | inl n ↦
              let (o, w, eq', taken) =
                take_loop-Taken reserved fuel v' (to_list v') refl others
                  (omega (arith, ap length split)) in
              (o, w, rw (p, take_loop, eq, n) eq', rw split (later o (s, e) (to_list v') taken))
          | inr ((cand, s'), found) ↦
              let page : Scanned reserved (s, e) (some (cand, s')) = rw found at at in
              (
                some cand,
                (if ltb s' e then push_ok v' (s', e) else v'),
                rw (p, take_loop, eq, found) refl,
                rw split (inl page.0),
              )
        ]
  ]
    where
      later :
          (o : Option ℕ) (r : ℕ × ℕ) (others : List (ℕ × ℕ))
          → Taken reserved others o
          → Taken reserved (r ∷ others) o
      later none r others h' = tt
      later (some frame) r others h' = inr h'

  -- Taking a frame always ends, on usable ranges, and a frame that it gives is a page of one of the
  -- ranges, and not reserved.
  pub fallback_take_frame-Taken :
      (reserved : ℕ → Bool) (v : Carrier)
      → All IsUsable (to_list v)
      → (o : Option ℕ) × (v' : Carrier) × (fallback_take_frame reserved v ≡ some (o, v'))
        × Taken reserved (to_list v) o
  unfolding fallback_take_frame
  fallback_take_frame-Taken reserved v usable =
      take_loop-Taken reserved (suc (length (to_list v))) v (to_list v) refl usable (omega arith)
