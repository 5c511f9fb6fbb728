-- ===== src/Mem/Frames/Owned.antt =====
-- No frame is taken that is not the kernel's to take: the allocators of jotunheimkernel/src/mem/mod.rs
-- together, over any number of allocations.
use jotunheim.Prelude.{
  ℕ, zero, suc, ◌+◌, ◌-◌, ◌/◌, ◌≤◌, ◌<◌, ◌≡◌, refl, ap, inl, inr, Bool, true, false, Option, none,
  some, ◌∷◌, arith, ltb, if◌then◌else◌, Bool-cases, Option-cases,
}
use jotunheim.Prelude.Lists.{length, All}
use jotunheim.Prelude.Words.{u64_mod}
use jotunheim.Mem.BoundedVec.{BoundedVec}
use jotunheim.Mem.Bump.{TinyBump, allocate_frame}
use jotunheim.Mem.Bump.FirstFit.{Fits, FirstFit, allocate_frame-FirstFit}
use jotunheim.Mem.Usable.{
  max_usable, push_ok, take_loop, fallback_take_frame, Scanned, scan_range-Scanned,
}
use jotunheim.Mem.Frames.{Frames, fall_back, guard_allocate_frame}

module _ (vec : BoundedVec (ℕ × ℕ) max_usable) (Owned : ℕ → Type 0) where
  open vec use {Carrier, to_list, push, push_room, push_full, pop, pop_items}

  -- All pages of the range are owned.
  abbrev pub OwnedRange : ℕ × ℕ → Type 0
  OwnedRange (s, e) = (s ≤ e) × (e + 0x1000 < u64_mod) × ((x : ℕ) → s ≤ x → x + 4096 ≤ e → Owned x)

  abbrev pub OwnedBump : Option TinyBump → Type 0
  OwnedBump none = Unit
  OwnedBump (some b) = Fits b × ((x : ℕ) → b.next ≤ x → x + 4096 ≤ b.end → Owned x)

  abbrev pub Sound : Frames vec → Type 0
  Sound s = OwnedBump s.frame_alloc × All OwnedRange (to_list s.usable)

  -- A frame that was given is owned, and not reserved.
  abbrev pub Granted : (ℕ → Bool) → Option ℕ → Type 0
  Granted reserved none = Unit
  Granted reserved (some frame) = Owned frame × (reserved frame ≡ false)

  pub push_ok-OwnedRange :
      (v : Carrier) (r : ℕ × ℕ)
      → OwnedRange r
      → All OwnedRange (to_list v)
      → All OwnedRange (to_list (push_ok vec v r))
  push_ok-OwnedRange v r own all = elim (Bool-cases (ltb (length (to_list v)) max_usable)) [
    | inl room ↦
        let (w, e, items) = push_room v r (ground arith) in rw (e, push_ok, items) (own, all)
    | inr full ↦ let e : push v r ≡ none = push_full v r (ground arith) in rw (e, push_ok) all
  ]

  push_if-OwnedRange :
      (b : Bool) (v : Carrier) (r : ℕ × ℕ)
      → OwnedRange r
      → All OwnedRange (to_list v)
      → All OwnedRange (to_list (if b then push_ok vec v r else v))
  push_if-OwnedRange true v r own all = push_ok-OwnedRange v r own all
  push_if-OwnedRange false v r own all = all

  module _ (reserved : ℕ → Bool) where
    take_loop-Granted :
        (fuel : ℕ) (v : Carrier)
        → All OwnedRange (to_list v)
        → length (to_list v) < fuel
        → (o : Option ℕ) × (v' : Carrier) × (take_loop vec reserved fuel v ≡ some (o, v'))
          × Granted reserved o
          × All OwnedRange (to_list v')
    unfolding take_loop
    take_loop-Granted zero v all h = absurd (omega arith)
    take_loop-Granted (suc fuel) v all h = elim (pop_items v) [
      | inl (nothing_left, p) ↦ (none, v, rw (p, take_loop) refl, tt, all)
      | inr ((s, e), v', cons, p) ↦
          let (first, others) : All OwnedRange ((s, e) ∷ to_list v') = rw cons at all in
          let (r, eq, at) =
            scan_range-Scanned vec reserved (suc ((e - s) / 4096)) s e (first.0, first.1)
              (omega arith) in
          elim (Option-cases r) [
            | inl n ↦
                let (o, w, eq', granted, rest) =
                  take_loop-Granted fuel v' others (omega (arith, ap length cons)) in
                (o, w, rw (p, take_loop, eq, n) eq', granted, rest)
            | inr ((cand, s'), found) ↦
                let (page, next) : Scanned vec reserved (s, e) (some (cand, s')) = rw found at at in
                (
                  some cand,
                  (if ltb s' e then push_ok vec v' (s', e) else v'),
                  rw (p, take_loop, eq, found) refl,
                  (first.2 cand page.0 page.1, page.2),
                  push_if-OwnedRange (ltb s' e) v' (s', e)
                      (omega (arith, next, page.1), first.1, λ x l u. first.2 x (omega arith) u)
                      others,
                )
          ]
    ]

    fall_back-Granted :
        (s : Frames vec)
        → Sound s
        → (o : Option ℕ) × (s' : Frames vec) × (fall_back vec reserved s ≡ some (o, s'))
          × Granted reserved o
          × Sound s'
    unfolding fall_back fallback_take_frame
    fall_back-Granted s (bump, ranges) =
        let (o, v', e, granted, rest) =
          take_loop-Granted (suc (length (to_list s.usable))) s.usable ranges (omega arith) in
        (o, record s { usable = v' }, rw (e, fall_back) refl, granted, (bump, rest))

    -- An allocation always ends. A frame that it gives, of the first region or of the usable ranges, is
    -- owned and not reserved, and what is left is owned again.
    pub guard_allocate_frame-Granted :
        (s : Frames vec)
        → Sound s
        → (o : Option ℕ) × (s' : Frames vec) × (guard_allocate_frame vec reserved s ≡ some (o, s'))
          × Granted reserved o
          × Sound s'
    unfolding guard_allocate_frame
    guard_allocate_frame-Granted s (bump, ranges) = elim (Option-cases s.frame_alloc) [
      | inl empty ↦
          let (o, s', e, granted, sound) = fall_back-Granted s (bump, ranges) in
          (o, s', rw (empty, guard_allocate_frame) e, granted, sound)
      | inr (b, there) ↦
          let own : OwnedBump (some b) = rw there at bump in
          from b there own (allocate_frame-FirstFit reserved b own.0)
    ]
      where
        from :
            (b : TinyBump)
            → s.frame_alloc ≡ some b
            → OwnedBump (some b)
            → (r : Option ℕ × TinyBump) × (allocate_frame reserved b ≡ some r)
              × FirstFit reserved b r
            → (o : Option ℕ) × (s' : Frames vec) × (guard_allocate_frame vec reserved s
                ≡ some (o, s'))
              × Granted reserved o
              × Sound s'
        from b there own ((some f, b'), e, (lo, hi, step, free, all, next, end)) = (
          some f,
          record s { frame_alloc = some b' },
          rw (there, guard_allocate_frame, e) refl,
          (own.1 f lo hi, free),
          (((omega arith, omega arith), λ x l u. own.1 x (omega arith) (omega arith)), ranges),
        )
        from b there own ((none, b'), e, (all, end, mono, top)) =
            let bump' : OwnedBump (some b') =
              ((omega arith, omega arith), λ x l u. own.1 x (omega arith) (omega arith)) in
            let (o, s', e', granted, sound) =
              fall_back-Granted (record s { frame_alloc = some b' }) (bump', ranges) in
            (o, s', rw (there, guard_allocate_frame, e) e', granted, sound)
