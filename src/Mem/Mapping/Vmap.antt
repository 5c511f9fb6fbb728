-- ===== src/Mem/Mapping/Vmap.antt =====
-- `vmap_alloc_pages` of jotunheimkernel/src/mem/mod.rs: the pages that it gives are mapped.
use jotunheim.Prelude.{
  ℕ, ◌+◌, ◌*◌, ◌≤◌, ◌<◌, ◌≡◌, ◌≢◌, ◌⊎◌, Bool, true, Option, none, some, bit_and,
}
use jotunheim.Prelude.Words.{not64}
use jotunheim.Prelude.Outcome.{Meets}
use jotunheim.Mem.Mapping.{FrameSource, Mapper, State, page_of, pa_mask_52, global_flags, map_4k}
use jotunheim.Mem.Mapping.Pages.{Refusing, OnePage, unwrap-OnePage}

module _ (fs : FrameSource) (m : Mapper fs) where
  open fs use {allocate_frame}
  open m use {translate}

  pub map_4k-OnePage :
      (va pa : ℕ) (s : State fs m)
      → translate s.0 (page_of va) ≡ none
      → Meets
          (Refusing fs m)
          (OnePage fs m s (page_of va) (bit_and (pa_mask_52 pa) (not64 0xfff)))
          (map_4k fs m va pa global_flags s)
  unfolding map_4k
  map_4k-OnePage va pa s fresh =
      unwrap-OnePage fs m (page_of va) (bit_and (pa_mask_52 pa) (not64 0xfff)) global_flags s fresh

  -- The pages outside are as before, and after `true` the `n` pages from `lo` on are mapped.
  abbrev pub Filled : State fs m → (lo n : ℕ) → Bool × State fs m → Type 0
  Filled s lo n (done, s') =
      (done ≡ true → (q : ℕ) → lo ≤ q → q < lo + n → translate s'.0 q ≢ none)
      × ((q : ℕ) → (q < lo) ⊎ (lo + n ≤ q) → translate s'.0 q ≡ translate s.0 q)

  -- What `vmap_alloc_pages` gives: if it gives an address, that is where the last window ended, and each
  -- of the pages from there on is mapped. The pages outside of them are as before in any case, and the
  -- next window begins behind them.
  abbrev pub Window : (pages next : ℕ) → State fs m → Option ℕ × ℕ × State fs m → Type 0
  Window pages next s (va, next', s') =
      (va ≢ none
        → (va ≡ some next)
          × ((q : ℕ) → page_of next ≤ q → q < page_of next + pages → translate s'.0 q ≢ none))
      × ((q : ℕ)
          → (q < page_of next) ⊎ (page_of next + pages ≤ q)
          → translate s'.0 q ≡ translate s.0 q)
      × (next' ≡ next + pages * 4096)
