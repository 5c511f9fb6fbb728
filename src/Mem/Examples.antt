-- ===== src/Mem/Examples.antt =====
-- The memory operations at inputs that meet the theorems' hypotheses, with a bounded list for the
-- table.
use jotunheim.Prelude.{ℕ, ◌≡◌, refl, Bool, true, ◌||◌, Option, some, [], arith, ◌==◌}
use jotunheim.Mem.BoundedVec.{BoundedVec, list_vec}
use jotunheim.Mem.Reserved.{Resv, mmio, max_resv, reserve_range, is_reserved_range}
use jotunheim.Mem.Reserved.Overlap.{share_page, is_reserved_range-reserve_range}
use jotunheim.Mem.Bump.{TinyBump, new, allocate_loop, allocate_frame}
use jotunheim.Mem.Bump.FirstFit.{FirstFit, allocate_frame-FirstFit}

abbrev vec : BoundedVec Resv max_resv
vec = list_vec Resv max_resv

reserved_runs : (reserve_range vec 0xfee0_0000 0x1000 mmio []).0 ≡ true
unfolding reserve_range
reserved_runs = refl

is_reserved_range-reserve_range_example :
    is_reserved_range vec 0xfee0_0800 0x10 (reserve_range vec 0xfee0_0000 0x1000 mmio []).1
    ≡ (share_page 0xfee0_0000 0x1000 0xfee0_0800 0x10 || is_reserved_range vec 0xfee0_0800 0x10 [])
is_reserved_range-reserve_range_example =
    is_reserved_range-reserve_range vec 0xfee0_0000 0x1000 mmio [] 0xfee0_0800 0x10
      (omega arith, omega arith) (omega arith, omega arith) reserved_runs

-- The first page is taken.
abbrev first_taken : ℕ → Bool
first_taken page = page == 0x1000

abbrev pool : TinyBump
pool = new 0x1000 0x5000

allocate_frame-FirstFit_example :
    (r : Option ℕ × TinyBump) × (allocate_frame first_taken pool ≡ some r)
    × FirstFit first_taken pool r
allocate_frame-FirstFit_example =
    allocate_frame-FirstFit first_taken pool (omega arith, omega arith)

first_runs : allocate_frame first_taken pool ≡ some (some 0x2000, new 0x3000 0x5000)
unfolding allocate_frame allocate_loop
first_runs = refl

second_runs : allocate_frame first_taken (new 0x3000 0x5000) ≡ some (some 0x3000, new 0x4000 0x5000)
unfolding allocate_frame allocate_loop
second_runs = refl
