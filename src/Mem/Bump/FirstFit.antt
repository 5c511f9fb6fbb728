-- ===== src/Mem/Bump/FirstFit.antt =====
-- The allocator hands out the first page that is not reserved, and never the same page twice.
use jotunheim.Prelude.{
  ℕ, zero, suc, ◌+◌, ◌-◌, ◌*◌, ◌/◌, ◌%◌, ◌≤◌, ◌<◌, ◌≡◌, refl, ◌∙◌, inl, inr, Bool, true, false,
  Option, none, some, arith, leb, Bool-cases,
}
use jotunheim.Prelude.Words.{u64_mod, saturating_add}
use jotunheim.Mem.Bump.{TinyBump, allocate_loop, allocate_frame}

-- The region is no negative one, and ends at least a page before the end of the address space.
abbrev pub Fits : TinyBump → Type 0
Fits b = (b.next ≤ b.end) × (b.end + 0x1000 < u64_mod)

module _ (reserved : ℕ → Bool) where
  -- Every page from `b.next` on that ends by `limit` is reserved.
  abbrev pub AllReserved : ℕ → ℕ → Type 0
  AllReserved next limit =
      (k : ℕ) → next + k * 4096 + 4096 ≤ limit → reserved (next + k * 4096) ≡ true

  -- What an allocation gives: the first page of the region that is not reserved, with the allocator
  -- moved behind it, or nothing, where every page is reserved, and then it stays within the region.
  abbrev pub FirstFit : TinyBump → Option ℕ × TinyBump → Type 0
  FirstFit b (some frame, b') =
      (b.next ≤ frame)
      × (frame + 4096 ≤ b.end)
      × ((frame - b.next) % 4096 ≡ 0)
      × (reserved frame ≡ false)
      × AllReserved b.next frame
      × (b'.next ≡ frame + 4096)
      × (b'.end ≡ b.end)
  FirstFit b (none, b') =
      AllReserved b.next b.end × (b'.end ≡ b.end) × (b.next ≤ b'.next) × (b'.next ≤ b.end)

  AllReserved-cons :
      (next limit : ℕ)
      → reserved next ≡ true
      → AllReserved (next + 4096) limit
      → AllReserved next limit
  AllReserved-cons next limit r h zero fits = let e : next + 0 * 4096 ≡ next = omega arith in rw e r
  AllReserved-cons next limit r h (suc k) fits =
      let e : next + 4096 + k * 4096 ≡ next + suc k * 4096 = omega arith in
      rw e at (h k (omega arith))

  FirstFit-step :
      (b b' : TinyBump) (r : Option ℕ × TinyBump)
      → reserved b.next ≡ true
      → b'.next ≡ b.next + 4096
      → b'.end ≡ b.end
      → FirstFit b' r
      → FirstFit b r
  FirstFit-step b b' (some frame, b'') res e e' (lo, hi, step, free, all, next, end) = (
    omega arith,
    omega arith,
    omega arith,
    free,
    AllReserved-cons b.next frame res (rw e at all),
    next,
    end ∙ e',
  )
  FirstFit-step b b' (none, b'') res e e' (all, end, mono, top) =
      (AllReserved-cons b.next b.end res (rw (e, e') at all), end ∙ e', omega arith, omega arith)

  allocate_loop-FirstFit :
      (fuel : ℕ) (b : TinyBump)
      → Fits b
      → (b.end - b.next) / 4096 < fuel
      → (r : Option ℕ × TinyBump) × (allocate_loop reserved fuel b ≡ some r) × FirstFit b r
  unfolding allocate_loop
  allocate_loop-FirstFit zero b fits enough = absurd (omega arith)
  allocate_loop-FirstFit (suc fuel) b fits enough = elim (Bool-cases (leb (b.next + 4096) b.end)) [
    | inr past ↦
        ((none, b), ground arith, ((λ k f. absurd (ground arith)), refl, omega arith, omega arith))
    | inl room ↦ elim (Bool-cases (reserved b.next)) [
      | inr free ↦ (
        (some b.next, next_page),
        ground arith,
        (
          omega arith,
          ground arith,
          omega arith,
          free,
          (λ k f. absurd (omega arith)),
          ground arith,
          refl,
        ),
      )
      | inl res ↦
          let (r, e, ff) = allocate_loop-FirstFit fuel next_page (ground arith) (ground arith) in
          (r, ground arith, FirstFit-step b next_page r res (ground arith) refl ff)
    ]
  ]
    where
      next_page : TinyBump
      next_page = record b { next = saturating_add b.next 0x1000 }

  -- Where the region is no negative one and ends more than a page before the end of the address space,
  -- every allocation ends, within the rounds that the region has pages, and is the first fit: the
  -- frame lies in the region on a page step from where the search began, is not reserved, every page
  -- before it is, and the allocator moves behind it; it gives nothing only where no page is free, and stays within the
  -- region then.
  pub allocate_frame-FirstFit :
      (b : TinyBump)
      → Fits b
      → (r : Option ℕ × TinyBump) × (allocate_frame reserved b ≡ some r) × FirstFit b r
  unfolding allocate_frame
  allocate_frame-FirstFit b fits = allocate_loop-FirstFit _ b fits (omega arith)

  -- Two frames that are allocated one after the other do not overlap.
  pub allocate_frame_twice :
      (b b' b'' : TinyBump) (f f' : ℕ)
      → Fits b
      → allocate_frame reserved b ≡ some (some f, b')
      → allocate_frame reserved b' ≡ some (some f', b'')
      → f + 4096 ≤ f'
  allocate_frame_twice b b' b'' f f' fits e e' =
      let (r, k, ff) = allocate_frame-FirstFit b fits in
      let same : r ≡ (some f, b') = ground arith in
      let first : FirstFit b (some f, b') = rw same at ff in
      let (r', k', ff') = allocate_frame-FirstFit b' (omega arith, omega arith) in
      let same' : r' ≡ (some f', b'') = ground arith in
      let second : FirstFit b' (some f', b'') = rw same' at ff' in omega arith
