-- ===== src/Boot/Segments/Copied.antt =====
-- What a segment leaves in memory.
use jotunheim.Prelude.{
  ℕ, ◌+◌, ◌-◌, ◌≤◌, ◌<◌, ◌≡◌, refl, ◌∙◌, ◌⊎◌, true, false, some, ltb, leb, if◌then◌else◌,
  Bool-cases, inl, inr, arith,
}
use jotunheim.Prelude.Words.{u64_mod, add64, sub64}
use jotunheim.Boot.Segments.{ProgramHeader, Bytes, clear, copy, copy_segment}

-- The segment lies in the image, its bytes lie in the file, and it is no shorter in memory than there.
pub record IsStored (elf_len load_base min_vaddr max_vaddr : ℕ) (ph : ProgramHeader) : Type 0 where
  pub above : min_vaddr ≤ ph.virtual_addr
  pub below : ph.virtual_addr + ph.mem_size ≤ max_vaddr
  pub stored : ph.offset + ph.file_size ≤ elf_len
  pub longer : ph.file_size ≤ ph.mem_size
  pub top : max_vaddr < u64_mod
  pub place : load_base + (max_vaddr - min_vaddr) < u64_mod

-- The byte at `a`: of the segment, of the zeros behind it, or the old one.
abbrev pub Loaded : (elf : Bytes) → ℕ → ProgramHeader → (mem mem' : Bytes) → Type 0
Loaded elf dst ph mem mem' =
    ((i : ℕ) → i < ph.file_size → mem' (dst + i) ≡ elf (ph.offset + i))
    × ((i : ℕ) → ph.file_size ≤ i → i < ph.mem_size → mem' (dst + i) ≡ 0)
    × ((a : ℕ) → (a < dst) ⊎ (dst + ph.mem_size ≤ a) → mem' a ≡ mem a)

module _ (elf : Bytes) (dst : ℕ) (ph : ProgramHeader) (mem : Bytes) where
  abbrev filled : Bytes
  filled = if ltb 0 ph.file_size then copy elf ph.offset dst ph.file_size mem else mem

  abbrev zeroed : Bytes
  zeroed =
      if ltb ph.file_size ph.mem_size
      then clear (dst + ph.file_size) (ph.mem_size - ph.file_size) filled
      else filled

  filled-at : (i : ℕ) → i < ph.file_size → filled (dst + i) ≡ elf (ph.offset + i)
  filled-at i h =
      let some_bytes : ltb 0 ph.file_size ≡ true = ground arith in
      let same : dst + i - dst ≡ i = omega arith in
      let low : leb dst (dst + i) ≡ true = ground arith in
      let high : ltb (dst + i) (dst + ph.file_size) ≡ true = ground arith in
      rw (some_bytes, low, high, same) refl

  filled-outside : (a : ℕ) → (a < dst) ⊎ (dst + ph.file_size ≤ a) → filled a ≡ mem a
  filled-outside a out = elim (Bool-cases (ltb 0 ph.file_size)) [
    | inr nothing ↦ rw nothing refl
    | inl some_bytes ↦ elim out [
      | inl below ↦ let low : leb dst a ≡ false = ground arith in rw (some_bytes, low) refl
      | inr above ↦
          let low : leb dst a ≡ true = ground arith in
          let high : ltb a (dst + ph.file_size) ≡ false = ground arith in
          rw (some_bytes, low, high) refl
    ]
  ]

  zeroed-outside :
      (a : ℕ)
      → (a < dst + ph.file_size) ⊎ (dst + ph.mem_size ≤ a)
      → ph.file_size ≤ ph.mem_size
      → zeroed a ≡ filled a
  zeroed-outside a out longer = elim (Bool-cases (ltb ph.file_size ph.mem_size)) [
    | inr nothing ↦ rw nothing refl
    | inl more ↦ elim out [
      | inl below ↦
          let low : leb (dst + ph.file_size) a ≡ false = ground arith in rw (more, low) refl
      | inr above ↦
          let low : leb (dst + ph.file_size) a ≡ true = ground arith in
          let high : ltb a (dst + ph.file_size + (ph.mem_size - ph.file_size)) ≡ false =
            ground arith in
          rw (more, low, high) refl
    ]
  ]

  zeroed-at : (i : ℕ) → ph.file_size ≤ i → i < ph.mem_size → zeroed (dst + i) ≡ 0
  zeroed-at i lo hi =
      let more : ltb ph.file_size ph.mem_size ≡ true = ground arith in
      let low : leb (dst + ph.file_size) (dst + i) ≡ true = ground arith in
      let high : ltb (dst + i) (dst + ph.file_size + (ph.mem_size - ph.file_size)) ≡ true =
        ground arith in
      rw (more, low, high) refl

  zeroed-Loaded : ph.file_size ≤ ph.mem_size → Loaded elf dst ph mem zeroed
  zeroed-Loaded longer = (
    λ i h. zeroed-outside (dst + i) (inl (omega arith)) longer ∙ filled-at i h,
    zeroed-at,
    λ a out. elim out [
      | inl below ↦ zeroed-outside a (inl (omega arith)) longer ∙ filled-outside a (inl below)
      | inr above ↦ zeroed-outside a (inr above) longer ∙ filled-outside a (inr (omega arith))
    ],
  )

-- Copying a segment of the image does not panic. Afterwards memory holds the segment's bytes of the
-- file from `load_base + (virtual_addr - min_vaddr)` on, zeros behind them up to the segment's size in
-- memory, and everywhere else what it held before.
pub copy_segment-Loaded :
    (elf : Bytes) (elf_len load_base min_vaddr max_vaddr : ℕ) (ph : ProgramHeader) (mem : Bytes)
    → IsStored elf_len load_base min_vaddr max_vaddr ph
    → (mem' : Bytes) × (copy_segment elf elf_len load_base min_vaddr ph mem ≡ some mem')
      × Loaded elf (load_base + (ph.virtual_addr - min_vaddr)) ph mem mem'
unfolding copy_segment
copy_segment-Loaded elf elf_len load_base lo hi ph mem s =
    let dst : add64 load_base (sub64 ph.virtual_addr lo) ≡ load_base + (ph.virtual_addr - lo) =
      omega (arith, s.above, s.below, s.top, s.place) in
    let fits : leb (ph.offset + ph.file_size) elf_len ≡ true = ground (arith, s.stored) in
    (
      zeroed elf (load_base + (ph.virtual_addr - lo)) ph mem,
      elim (Bool-cases (ltb 0 ph.file_size)) [
        | inl some_bytes ↦ rw (dst, some_bytes, fits) refl
        | inr nothing ↦ rw (dst, nothing) refl
      ],
      zeroed-Loaded elf (load_base + (ph.virtual_addr - lo)) ph mem s.longer,
    )
