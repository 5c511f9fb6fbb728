-- ===== src/Boot/Paging/Huge/Chunk.antt =====
-- One huge page of `map_hhdm_huge`: where nothing was mapped, the whole chunk is, and nothing else.
use jotunheim.Prelude.{
  ℕ, suc, ◌+◌, ◌*◌, ◌/◌, ◌%◌, ◌^◌, ◌<◌, ◌≡◌, ◌≢◌, refl, sym, ◌∙◌, ap, inl, inr, true, false, none,
  some, ◌==◌, Bool-cases, arith,
}
use jotunheim.Prelude.Bits.{bit_or-shift, bit_or-one}
use jotunheim.Boot.Pages.{Firmware, Store, write_entry}
use jotunheim.Boot.Paging.{is_present, is_huge, address}
use jotunheim.Boot.Paging.Entries.{IsPage, bit_and_p, bit_and_ps, bit_and_address, entry_of-add}
use jotunheim.Boot.Paging.Walk.{walk, above, huge_frame}
use jotunheim.Boot.Paging.Tables.{Owner, Shape, walk-huge}
use jotunheim.Boot.Paging.Leaf.{Comes}
use jotunheim.Boot.Paging.Write.{set_entry-Shape, set_entry-other}
use jotunheim.Boot.Paging.Page.{view, IsTree, top_of, Comes-same}
use jotunheim.Boot.Paging.Huge.{huge_entry_of, set_absent}

huge_entry_of-add : (phys : ℕ) → IsPage phys → huge_entry_of phys ≡ phys + 0x83
huge_entry_of-add phys h =
    let id : address phys ≡ phys = omega (arith, bit_and_address phys) in
    rw (id, entry_of-add phys h)
      (ground (arith, bit_or-shift 7 (phys / 128) 3 1, bit_or-one (phys / 128)))

pub huge_entry_of-present : (phys : ℕ) → IsPage phys → is_present (huge_entry_of phys) ≡ true
huge_entry_of-present phys h =
    rw (huge_entry_of-add phys h) (ground (arith, bit_and_p (phys + 0x83)))

pub huge_entry_of-huge : (phys : ℕ) → IsPage phys → is_huge (huge_entry_of phys) ≡ true
huge_entry_of-huge phys h = rw (huge_entry_of-add phys h) (ground (arith, bit_and_ps (phys + 0x83)))

pub huge_entry_of-address : (phys : ℕ) → IsPage phys → address (huge_entry_of phys) ≡ phys
huge_entry_of-address phys h =
    rw (huge_entry_of-add phys h) (omega (arith, bit_and_address (phys + 0x83)))

module _ (fw : Firmware) (Flat : ℕ → ℕ → Type 0) (root : ℕ) where
  -- The chunk of level `n` around the page `vp` is mapped by the entry `e`, the rest as before.
  abbrev pub ChunkSet : ℕ → ℕ → ℕ → Store fw → Store fw → Type 0
  ChunkSet n vp e st st' =
      IsTree fw Flat root st'
      × ((vp' : ℕ)
          → vp' < 2 ^ 36
          → above n vp' ≡ above n vp
          → view fw root st' vp' ≡ some (huge_frame n e vp'))
      × ((vp' : ℕ)
          → vp' < 2 ^ 36
          → above n vp' ≢ above n vp
          → view fw root st' vp' ≡ view fw root st vp')

  module _ (own : Owner) (st : Store fw) (n vp i t : ℕ) (st₁ : Store fw) (e : ℕ)
      (s : Shape fw Flat root own st) (c : Comes fw Flat root own st (suc n) vp (t, st₁))
      (hi : i ≡ above (suc n) vp % 512) (low : vp < 2 ^ 36)
      (huge_here : ¬ Flat (suc n) (above (suc n) vp)) (free : view fw root st vp ≡ none)
      (present : is_present e ≡ true) (huge : is_huge e ≡ true) where
    free_entry : is_present (st₁.mem t i) ≡ false
    free_entry =
        let (own', g, o, at) = c in
        let empty : walk (suc n) st₁.mem t vp ≡ none =
          sym (at st₁.mem vp (λ p l pre j op up. refl) refl)
          ∙ Comes-same fw Flat root (suc n) own st vp vp t st₁ s c low
          ∙ free in
        elim (Bool-cases (is_present (st₁.mem t i))) [
          | inr absent ↦ absent
          | inl here ↦ elim (Bool-cases (is_huge (st₁.mem t i))) [
            | inl big ↦
                let full = walk-huge n st₁.mem t vp (st₁.mem t i) (rw hi refl) here big in absurd cc
            | inr small ↦
                let below =
                  g.shape.link t n (above (suc (suc n)) vp) i o (omega arith) here small in
                let area : above (suc (suc n)) vp * 512 + i ≡ above (suc n) vp = omega arith in
                absurd (huge_here (rw area at (g.shape.areas _ n _ below)))
          ]
        ]

    pub set_absent-ChunkSet : ChunkSet (suc n) vp e st (set_absent fw st₁ t i e)
    set_absent-ChunkSet =
        let (own', g, o, at) = c in
        let area : above (suc (suc n)) vp * 512 + i ≡ above (suc n) vp = omega arith in
        let fits : Flat (suc n) (above (suc (suc n)) vp * 512 + i) → is_huge e ≡ false =
          λ fl. absurd (huge_here (rw area at fl)) in
        let mem' = write_entry st₁.mem t i e in
        let read : mem' t i ≡ e = ground arith in
        rw free_entry (
          (
            own',
            set_entry-Shape fw Flat root own' st₁ g.shape t (suc n) _ i e o fits (λ m k. huge),
          ),
          (λ vp' h near.
              at mem' vp' (λ p l pre j op up. elsewhere own' l pre p j op o up)
                (ap (λ (a : ℕ). a / 512) near)
              ∙ walk-huge n mem' t vp' e (rw (near, sym hi) read) present huge),
          λ vp' h far.
              set_entry-other fw Flat root own' st₁ g.shape t (suc n) _ i e o fits (λ m k. huge) vp'
                (λ k. far (k ∙ area)) 3 root (top_of fw Flat root own' st₁ vp' g.shape h)
              ∙ Comes-same fw Flat root (suc n) own st vp vp' t st₁ s c h,
        )
      where
        elsewhere :
            (own' : Owner) (l pre p j : ℕ)
            → own' p ≡ some (l, pre)
            → own' t ≡ some (suc n, above (suc (suc n)) vp)
            → suc n < l
            → write_entry st₁.mem t i e p j ≡ st₁.mem p j
        elsewhere own' l pre p j op o up = elim (Bool-cases (p == t)) [
          | inr other ↦ rw other refl
          | inl same ↦ absurd (ground (arith, o))
        ]
