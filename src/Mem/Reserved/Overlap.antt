-- ===== src/Mem/Reserved/Overlap.antt =====
-- What a reservation means: a range is reserved exactly when it shares a page with a range that was
-- reserved.
use jotunheim.Prelude.{
  ℕ, suc, ◌+◌, ◌-◌, ◌/◌, ◌≤◌, ◌<◌, ◌≡◌, ◌⊎◌, inl, inr, Bool, true, false, ◌&&◌, ◌||◌, none, some,
  ◌∷◌, arith, ltb, leb, Bool-cases, Option-cases,
}
use jotunheim.Prelude.Lists.{length}
use jotunheim.Prelude.Words.{u64_mod, add64}
use jotunheim.Mem.BoundedVec.{BoundedVec}
use jotunheim.Mem.Page.{align_down, align_up, align_down_page, align_up_page}
use jotunheim.Mem.Reserved.{ResvKind, Resv, max_resv, any_overlap, reserve_range, is_reserved_range}

-- The ranges are not empty, and do not come near the end of the address space.
abbrev pub IsRange : ℕ → ℕ → Type 0
IsRange start len = (0 < len) × (start + len + 0xfff < u64_mod)

-- Some page holds an address of both ranges.
abbrev pub share_page : ℕ → ℕ → ℕ → ℕ → Bool
share_page start len phys plen =
    leb (start / 4096) ((phys + plen - 1) / 4096) && leb (phys / 4096) ((start + len - 1) / 4096)

-- The test on the rounded ranges is a test on pages.
rounded_overlap :
    (start len phys plen : ℕ)
    → IsRange start len
    → IsRange phys plen
    → (ltb (align_down phys 0x1000) (align_up (add64 start len) 0x1000)
        && ltb (align_down start 0x1000) (align_up (add64 phys plen) 0x1000))
      ≡ share_page start len phys plen
rounded_overlap start len phys plen h k = ground (
  arith,
  align_down_page start,
  align_down_page phys,
  align_up_page (start + len),
  align_up_page (phys + plen),
)

module _ (vec : BoundedVec Resv max_resv) where
  open vec use {Carrier, empty, to_list, push, push_room, push_full}

  -- A push that succeeds adds the entry.
  push_some : (v v' : Carrier) (r : Resv) → push v r ≡ some v' → to_list v' ≡ r ∷ to_list v
  push_some v v' r e = elim (Bool-cases (ltb (length (to_list v)) max_resv)) [
    | inl room ↦
        let (w, e', items) = push_room v r (ground arith) in
        let same : w ≡ v' = ground arith in rw same at items
    | inr full ↦ let none' : push v r ≡ none = push_full v r (ground arith) in ground arith
  ]

  -- After a range was reserved with success, a range is reserved exactly if it shares a page with that one
  -- or was reserved before, for ranges that are not empty and end a page before the end of the address
  -- space at the latest.
  pub is_reserved_range-reserve_range :
      (start len : ℕ) (kind : ResvKind) (v : Carrier) (phys plen : ℕ)
      → IsRange start len
      → IsRange phys plen
      → (reserve_range vec start len kind v).0 ≡ true
      → is_reserved_range vec phys plen (reserve_range vec start len kind v).1
        ≡ (share_page start len phys plen || is_reserved_range vec phys plen v)
  unfolding reserve_range is_reserved_range any_overlap
  is_reserved_range-reserve_range start len kind v phys plen h k ok =
      elim (Option-cases (push v resv)) [
        | inl e ↦ ground arith
        | inr (v', e) ↦
            ground (arith, push_some v v' resv e, rounded_overlap start len phys plen h k)
      ]
    where
      resv : Resv
      resv = record {
        start = align_down start 0x1000;
        end = align_up (add64 start len) 0x1000;
        kind = kind;
      }

  -- A reservation fails only where the table is full, and then changes nothing; it takes one entry
  -- otherwise.
  pub reserve_range_room :
      (start len : ℕ) (kind : ResvKind) (v : Carrier)
      → 0 < len
      → let r = reserve_range vec start len kind v in
        ((length (to_list v) < max_resv)
          × (r.0 ≡ true)
          × (length (to_list r.1) ≡ suc (length (to_list v))))
        ⊎ ((max_resv ≤ length (to_list v)) × (r.0 ≡ false) × (r.1 ≡ v))
  unfolding reserve_range
  reserve_range_room start len kind v h = elim (Bool-cases (ltb (length (to_list v)) max_resv)) [
    | inl room ↦
        let (w, e, items) = push_room v resv (ground arith) in
        inl (ground arith, ground arith, ground arith)
    | inr full ↦
        let e : push v resv ≡ none = push_full v resv (ground arith) in
        inr (ground arith, ground arith, ground arith)
  ]
    where
      resv : Resv
      resv = record {
        start = align_down start 0x1000;
        end = align_up (add64 start len) 0x1000;
        kind = kind;
      }
