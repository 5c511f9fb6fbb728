-- ===== src/Mem/Page.antt =====
-- Rounding to pages: `align_down` and `align_up` of jotunheimkernel/src/mem/mod.rs and
-- jotunheimkernel/src/mem/reserved.rs, which are the same.
use jotunheim.Prelude.{ℕ, ◌+◌, ◌-◌, ◌%◌, ◌≤◌, ◌<◌, ◌≡◌, arith, bit_and}
use jotunheim.Prelude.Words.{u64_mod, add64, not64, bit_and_page}

-- `x & !(a - 1)`
unfoldable pub align_down : ℕ → ℕ → ℕ
align_down x a = bit_and x (not64 (a - 1))

-- `(x + (a - 1)) & !(a - 1)`
unfoldable pub align_up : ℕ → ℕ → ℕ
align_up x a = bit_and (add64 x (a - 1)) (not64 (a - 1))

pub align_down_page : (x : ℕ) → x < u64_mod → align_down x 0x1000 ≡ x - x % 4096
unfolding align_down
align_down_page x h = bit_and_page x h

pub align_up_page :
    (x : ℕ) → x + 0xfff < u64_mod → align_up x 0x1000 ≡ (x + 0xfff) - (x + 0xfff) % 4096
unfolding align_up
align_up_page x h = ground (arith, bit_and_page (add64 x 0xfff))

-- Rounding down and up enclose the address by the nearest page boundaries.
pub align_bounds :
    (x : ℕ)
    → x + 0xfff < u64_mod
    → (align_down x 0x1000 ≤ x)
      × (x < align_down x 0x1000 + 4096)
      × (x ≤ align_up x 0x1000)
      × (align_up x 0x1000 < x + 4096)
      × (align_down x 0x1000 % 4096 ≡ 0)
      × (align_up x 0x1000 % 4096 ≡ 0)
align_bounds x h = omega (arith, align_down_page x (omega arith), align_up_page x h)
