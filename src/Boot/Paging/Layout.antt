-- ===== src/Boot/Paging/Layout.antt =====
-- What the page tables hold while `build_pagetables_exec` fills them: the kernel's image, the identity
-- mapping so far, and nothing yet above it.
use jotunheim.Prelude.{
  ℕ, ◌+◌, ◌-◌, ◌%◌, ◌^◌, ◌≤◌, ◌<◌, ◌≡◌, ◌≢◌, sym, ◌∙◌, ap, ◌⊎◌, inl, inr, none, some, arith,
}
use jotunheim.Prelude.Words.{u64_mod, add64, sub64}
use jotunheim.Boot.Pages.{Firmware, Store}
use jotunheim.Boot.Paging.{address}
use jotunheim.Boot.Paging.Entries.{bit_and_address}
use jotunheim.Boot.Paging.Walk.{page_number}
use jotunheim.Boot.Paging.Page.{view, IsTree}
use jotunheim.Boot.Paging.Range.{page_base, Outside, Mapped}
use jotunheim.Boot.Paging.Build.{two_mib, min}

-- The image lies between page boundaries in one half of the address space, and its frames exist.
pub record IsImage (load_base lo hi : ℕ) : Type 0 where
  pub load_page : load_base % 4096 ≡ 0
  pub lo_page : lo % 4096 ≡ 0
  pub hi_page : hi % 4096 ≡ 0
  pub not_empty : lo < hi
  pub half : (hi ≤ 2 ^ 47) ⊎ (2 ^ 64 - 2 ^ 47 ≤ lo)
  pub top : hi + 4096 ≤ u64_mod
  pub frames : load_base + (hi - lo) ≤ 2 ^ 52

-- The address is none of the image's.
abbrev pub Beside : ℕ → ℕ → ℕ → Type 0
Beside lo hi x = (x < lo) ⊎ (hi ≤ x)

module _ (fw : Firmware) (Flat : ℕ → ℕ → Type 0) (root load_base lo hi : ℕ) where
  -- The image is mapped to its frames, and the addresses from 4 KiB up to `end` beside it to
  -- themselves.
  abbrev pub Holds : ℕ → Store fw → Type 0
  Holds end st =
      ((x : ℕ)
        → lo ≤ x
        → x < hi
        → view fw root st (page_number x) ≡ some (load_base + (page_base x - lo)))
      × ((x : ℕ)
          → 0x1000 ≤ x
          → x < end
          → Beside lo hi x
          → view fw root st (page_number x) ≡ some (page_base x))

  -- No other page is mapped yet.
  pub record Layout (end : ℕ) (st : Store fw) : Type 0 where
    pub tree : IsTree fw Flat root st
    pub holds : Holds end st
    pub free :
        (vp : ℕ)
        → vp < 2 ^ 36
        → Outside fw Flat root lo hi vp
        → Outside fw Flat root 0 end vp
        → view fw root st vp ≡ none

  module _ (image : IsImage load_base lo hi) where
    pub apart :
        (x y : ℕ) → lo ≤ x → x < hi → y < 2 ^ 47 → Beside lo hi y → page_number x ≢ page_number y
    apart x y lx ux h beside e = elim beside [
      | inl below ↦ elim image.half [
        | inl low ↦ omega (arith, image.lo_page)
        | inr high ↦ omega (arith, image.top)
      ]
      | inr above ↦ elim image.half [
        | inl low ↦ omega (arith, image.hi_page)
        | inr high ↦ omega (arith, image.top)
      ]
    ]

    image_frame :
        (x : ℕ)
        → lo ≤ x
        → x < hi
        → address (add64 (page_base x) (sub64 load_base lo)) ≡ load_base + (page_base x - lo)
    image_frame x lx ux =
        let moved : add64 (page_base x) (sub64 load_base lo) ≡ load_base + (page_base x - lo) =
          omega (arith, image.lo_page, image.frames, image.top) in
        rw moved (
          omega (
            arith,
            bit_and_address (load_base + (page_base x - lo)),
            image.load_page,
            image.lo_page,
            image.hi_page,
            image.frames,
          ))

    pub ident_frame : (x : ℕ) → x < 2 ^ 47 → address (add64 (page_base x) 0) ≡ page_base x
    ident_frame x h = ground (arith, bit_and_address (page_base x))

    pub image-Layout :
        (st st' : Store fw)
        → ((vp : ℕ) → view fw root st vp ≡ none)
        → Mapped fw Flat root st lo hi (sub64 load_base lo) st'
        → Layout 0x1000 st'
    image-Layout st st' empty (tree, all, out) = record {
      tree = tree;
      holds = (
        (λ x lx ux. all x lx ux ∙ ap some (image_frame x lx ux)),
        λ x a b s. absurd (omega arith),
      );
      free = λ vp h o b. out vp h o ∙ empty vp;
    }

    pub low_ident-Layout :
        (st st₁ st' : Store fw)
        → Layout 0x1000 st
        → Mapped fw Flat root st 0x1000 (min lo two_mib) 0 st₁
        → Mapped fw Flat root st₁ hi two_mib 0 st'
        → Layout two_mib st'
    low_ident-Layout st st₁ st' l (tree₁, all₁, out₁) (tree', all', out') = record {
      tree = tree';
      holds = (
        (λ x lx ux.
            out' (page_number x) (omega arith)
              (λ y ly uy e. apart x y lx ux (omega arith) (inr ly) (sym e))
            ∙ out₁ (page_number x) (omega arith)
                (λ y ly uy e. apart x y lx ux (ground arith) (inl (ground arith)) (sym e))
            ∙ l.holds.0 x lx ux),
        λ x a b s. elim s [
          | inr above ↦ all' x above b ∙ ap some (ident_frame x (omega arith))
          | inl below ↦
              out' (page_number x) (omega arith)
                (λ y ly uy e. absurd (omega (arith, image.hi_page, image.not_empty)))
              ∙ all₁ x a (ground arith)
              ∙ ap some (ident_frame x (omega arith))
        ],
      );
      free = λ vp h o b.
          out' vp h (λ y ly uy. b y (omega arith) uy)
          ∙ out₁ vp h (λ y ly uy. b y (omega arith) (ground arith))
          ∙ l.free vp h o (λ y ly uy. b y ly (omega arith));
    }
