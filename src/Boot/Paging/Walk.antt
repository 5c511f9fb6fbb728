-- ===== src/Boot/Paging/Walk.antt =====
-- What the processor makes of the tables: the four-level walk of the AMD64 architecture. Level 3 is
-- the PML4; a virtual page is the number made of bits 12 to 47 of the address.
use jotunheim.Prelude.{ℕ, zero, suc, ◌+◌, ◌*◌, ◌/◌, ◌%◌, ◌^◌, Option, none, some, if◌then◌else◌}
use jotunheim.Boot.Pages.{Memory}
use jotunheim.Boot.Paging.{is_present, is_huge, address}

abbrev pub page_number : ℕ → ℕ
page_number va = va / 4096 % 2 ^ 36

-- The number of the area that one entry of a level covers: the page without its lower indices.
abbrev pub above : ℕ → ℕ → ℕ
above zero vp = vp
above (suc n) vp = above n vp / 512

-- How many pages one entry of a level covers.
abbrev pub span : ℕ → ℕ
span zero = 1
span (suc n) = span n * 512

-- The frame of a page within a huge page. In the entry the address bits below the huge page's size are
-- no part of its frame.
abbrev pub huge_frame : ℕ → ℕ → ℕ → ℕ
huge_frame n e vp = let size = span n * 4096 in address e / size * size + vp % span n * 4096

-- The frame that a virtual page is mapped to by the table `table` of a level.
unfoldable pub walk : ℕ → Memory → ℕ → ℕ → Option ℕ
walk zero mem table vp =
    let e = mem table (vp % 512) in if is_present e then some (address e) else none
walk (suc n) mem table vp =
    let e = mem table (above (suc n) vp % 512) in
    let next = walk n mem (address e) vp in
    let huge = some (huge_frame (suc n) e vp) in
    if is_present e then if is_huge e then huge else next else none
