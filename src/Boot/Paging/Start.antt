-- ===== src/Boot/Paging/Start.antt =====
-- The page tables at the start of `build_pagetables_exec`: a PML4 that is all zero.
use jotunheim.Prelude.{ℕ, suc, ◌≡◌, refl, true, none, some, ◌==◌, arith, if◌then◌else◌}
use jotunheim.Boot.Pages.{Firmware, max_address, Store, Memory, zero_page}
use jotunheim.Boot.Paging.{is_present}
use jotunheim.Boot.Paging.Tables.{Owner, Shape, walk-empty}
use jotunheim.Boot.Paging.Page.{view}

module _ (fw : Firmware) (Flat : ℕ → ℕ → Type 0) (top : Flat 4 0) (s f : fw.State) (mem : Memory)
    (q : ℕ) (e : fw.allocate (max_address 0x0000fffffffff000) s ≡ some (q, f)) where
  abbrev pub fresh : Store fw
  fresh = record { firmware = f; mem = zero_page mem q }

  abbrev pub root_only : Owner
  root_only p = if p == q then some (3, 0) else none

  entry_zero : (j : ℕ) → fresh.mem q j ≡ 0
  entry_zero j = ground arith

  owned : (p n pre : ℕ) → root_only p ≡ some (n, pre) → (p ≡ q) × (n ≡ 3) × (pre ≡ 0)
  owned p n pre o = (ground arith, ground arith, ground arith)

  pub fresh-Shape : Shape fw Flat q root_only fresh
  fresh-Shape = record {
    top = ground arith;
    taken = λ p n pre o.
        rw (owned p n pre o).0 (fw.allocate-taken (max_address 0x0000fffffffff000) s f q e);
    areas = λ p n pre o. let (at_q, level, area) = owned p n pre o in rw (level, area) top;
    flat =
        λ p n pre i o fl. let (at_q, level, area) = owned p n pre o in rw (at_q, entry_zero i) refl;
    link = λ p n pre i o hi here small.
        let (at_q, level, area) = owned p (suc n) pre o in
        let read : is_present (fresh.mem q i) ≡ true = rw at_q at here in
        absurd (ground (arith, entry_zero i, read));
  }

  pub fresh_empty : (vp : ℕ) → view fw q fresh vp ≡ none
  fresh_empty vp = walk-empty 3 fresh.mem q vp entry_zero
