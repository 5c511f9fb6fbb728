-- ===== src/Boot.antt =====
-- The boot loader, jotunboot/src/main.rs: address arithmetic and the page tables it leaves behind.
pub mod Pages
pub mod Paging
pub mod Segments
pub mod Handoff
mod Examples
use jotunheim.Prelude.{ℕ, ◌-◌, ltb, ◌==◌, if◌then◌else◌, Bool, bit_and}
use jotunheim.Prelude.Words.{add64, sub64, not64}

-- `HHDM_BASE`
abbrev pub hhdm_base : ℕ
hhdm_base = 0xffff888000000000

abbrev pub align_up : ℕ → ℕ → ℕ
align_up x a = let m = if ltb a 1 then 1 else a in bit_and (sub64 (add64 x m) 1) (not64 (m - 1))

abbrev pub align_down : ℕ → ℕ → ℕ
align_down x a = bit_and x (not64 (a - 1))

abbrev pub is_aligned : ℕ → ℕ → Bool
is_aligned x a = bit_and x (a - 1) == 0
