-- ===== src/Boot/Paging/Huge/Rounds.antt =====
-- The loops of `map_hhdm_huge`: they end, and all physical memory is mapped.
use jotunheim.Prelude.{
  ℕ, zero, suc, ◌+◌, ◌-◌, ◌*◌, ◌/◌, ◌%◌, ◌^◌, ◌≤◌, ◌<◌, ◌≡◌, refl, inl, inr, true, none, Bool-cases,
  arith, ltb, leb,
}
use jotunheim.Prelude.Bits.{bit_and-low}
use jotunheim.Prelude.Words.{add64}
use jotunheim.Boot.{hhdm_base, is_aligned}
use jotunheim.Prelude.Outcome.{Meets, meets, Meets-bind}
use jotunheim.Boot.Pages.{Firmware, AllocateType, Store}
use jotunheim.Boot.Paging.Huge.{gib_round, mib_round, chunk_loop, tail_loop, map_hhdm_huge}
use jotunheim.Boot.Paging.Huge.Cover.{
  Covered, Covered-extend, gib_round-Spans, mib_round-Spans, page_round-Spans,
}

is_aligned-gib : (x : ℕ) → x % 2 ^ 30 ≡ 0 → is_aligned x (2 ^ 30) ≡ true
is_aligned-gib x h = ground (arith, bit_and-low 30 (x / 2 ^ 30) 0)

is_aligned-mib : (x : ℕ) → x % 2 ^ 21 ≡ 0 → is_aligned x (2 ^ 21) ≡ true
is_aligned-mib x h = ground (arith, bit_and-low 21 (x / 2 ^ 21) 0)

module _ (fw : Firmware) (phys_max root : ℕ) (small : phys_max ≤ 2 ^ 46) {F : Type 0}
    (refused : (k : AllocateType) (s : fw.State) → fw.allocate k s ≡ none → F)
    (before : Store fw) where
  -- The loop stops behind the last chunk that fits.
  abbrev Stops : ℕ → ℕ × Store fw → Type 0
  Stops size (p, st) =
      Covered fw phys_max root before p st × (p % size ≡ 0) × (p ≤ phys_max) × (phys_max < p + size)

  gib_loop-Stops :
      (fuel done : ℕ) (st : Store fw)
      → (phys_max - done) / 2 ^ 30 < fuel
      → done % 2 ^ 30 ≡ 0
      → done ≤ phys_max
      → Covered fw phys_max root before done st
      → Meets F
          (Stops (2 ^ 30))
          (chunk_loop fw root (2 ^ 30) (gib_round fw root) fuel phys_max done st)
  unfolding chunk_loop
  gib_loop-Stops zero done st enough p le c = absurd (omega arith)
  gib_loop-Stops (suc fuel) done st enough p le c =
      let here = is_aligned-gib done p in
      let there = is_aligned-gib (add64 hhdm_base done) (omega arith) in
      elim (Bool-cases (ltb done phys_max)) [
        | inr end ↦ rw end (meets (c, p, le, ground arith))
        | inl more ↦ elim (Bool-cases (leb (2 ^ 30) (phys_max - done))) [
          | inr last ↦ rw (more, last) (meets (c, p, le, ground arith))
          | inl fits ↦
              let room : done + 2 ^ 30 ≤ phys_max = ground arith in
              let next : add64 done (2 ^ 30) ≡ done + 2 ^ 30 = omega arith in
              rw (more, fits, here, there)
                (Meets-bind (gib_round-Spans fw phys_max root small refused before st done p room c)
                  λ st' s. rw next (
                    gib_loop-Stops fuel (done + 2 ^ 30) st' (omega arith) (omega arith) room (
                      Covered-extend fw phys_max root small before st st' (2 ^ 30) done
                        (omega arith) refl room c s)))
        ]
      ]

  mib_loop-Stops :
      (fuel done : ℕ) (st : Store fw)
      → (phys_max - done) / 2 ^ 21 < fuel
      → done % 2 ^ 21 ≡ 0
      → phys_max / 2 ^ 30 * 2 ^ 30 ≤ done
      → done ≤ phys_max
      → Covered fw phys_max root before done st
      → Meets F
          (Stops (2 ^ 21))
          (chunk_loop fw root (2 ^ 21) (mib_round fw root) fuel phys_max done st)
  unfolding chunk_loop
  mib_loop-Stops zero done st enough p after le c = absurd (omega arith)
  mib_loop-Stops (suc fuel) done st enough p after le c =
      let here = is_aligned-mib done p in
      let there = is_aligned-mib (add64 hhdm_base done) (omega arith) in
      elim (Bool-cases (ltb done phys_max)) [
        | inr end ↦ rw end (meets (c, p, le, ground arith))
        | inl more ↦ elim (Bool-cases (leb (2 ^ 21) (phys_max - done))) [
          | inr last ↦ rw (more, last) (meets (c, p, le, ground arith))
          | inl fits ↦
              let room : done + 2 ^ 21 ≤ phys_max = ground arith in
              let next : add64 done (2 ^ 21) ≡ done + 2 ^ 21 = omega arith in
              rw (more, fits, here, there)
                (Meets-bind
                  (mib_round-Spans fw phys_max root small refused before st done p room after c)
                  λ st' s. rw next (
                    mib_loop-Stops fuel (done + 2 ^ 21) st' (omega arith) (omega arith)
                      (omega arith) room
                      (Covered-extend fw phys_max root small before st st' (2 ^ 21) done
                        (omega arith) refl room c s)))
        ]
      ]

  tail_loop-Covered :
      (fuel done : ℕ) (st : Store fw)
      → (phys_max - done + 4095) / 4096 < fuel
      → done % 4096 ≡ 0
      → phys_max % 4096 ≡ 0
      → phys_max / 2 ^ 21 * 2 ^ 21 ≤ done
      → done ≤ phys_max
      → Covered fw phys_max root before done st
      → Meets F (Covered fw phys_max root before phys_max) (tail_loop fw root fuel phys_max done st)
  unfolding tail_loop
  tail_loop-Covered zero done st enough p pm after le c = absurd (omega arith)
  tail_loop-Covered (suc fuel) done st enough p pm after le c =
      elim (Bool-cases (ltb done phys_max)) [
        | inr end ↦ let all : done ≡ phys_max = ground arith in rw end (meets (rw all at c))
        | inl more ↦
            let below : done < phys_max = ground arith in
            let room : done + 4096 ≤ phys_max = omega arith in
            let next : add64 done 4096 ≡ done + 4096 = omega arith in
            rw more (
              Meets-bind
                (page_round-Spans fw phys_max root small refused before st done p room after c)
                λ st' s. rw next (
                  tail_loop-Covered fuel (done + 4096) st' (omega arith) (omega arith) pm
                    (omega arith) room
                    (Covered-extend fw phys_max root small before st st' 4096 done p refl room c
                      s)))
      ]

  pub map_hhdm_huge-Covered :
      phys_max % 4096 ≡ 0
      → Covered fw phys_max root before 0 before
      → Meets F (Covered fw phys_max root before phys_max) (map_hhdm_huge fw root phys_max before)
  unfolding map_hhdm_huge
  map_hhdm_huge-Covered pm c =
      Meets-bind (gib_loop-Stops _ 0 before (omega arith) refl (omega arith) c)
        λ (p₁, st₁) (c₁, a₁, le₁, end₁).
          Meets-bind (mib_loop-Stops _ p₁ st₁ (omega arith) (omega arith) (omega arith) le₁ c₁)
            λ (p₂, st₂) (c₂, a₂, le₂, end₂).
              tail_loop-Covered _ p₂ st₂ (omega arith) (omega arith) pm (omega arith) le₂ c₂
