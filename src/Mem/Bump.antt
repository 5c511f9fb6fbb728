-- ===== src/Mem/Bump.antt =====
-- The frame allocator `TinyBump` of jotunheimkernel/src/mem/simple_alloc.rs. A frame is named by its
-- physical address; `reserved` is `is_reserved_page`.
pub mod FirstFit
use jotunheim.Prelude.{
  ℕ, zero, suc, ◌+◌, ◌-◌, ◌/◌, ◌^◌, Bool, true, false, not, Option, none, some, leb, if◌then◌else◌,
}
use jotunheim.Prelude.Words.{u64_mod, add64, saturating_add}

pub record TinyBump : Type 0 where
  pub next : ℕ
  pub end : ℕ

abbrev pub new : ℕ → ℕ → TinyBump
new start end = record { next = start; end = end }

module _ (reserved : ℕ → Bool) where
  -- The loop: a frame or none, and the allocator after it. `none` outside: the fuel ran out.
  unfoldable pub allocate_loop : ℕ → TinyBump → Option (Option ℕ × TinyBump)
  allocate_loop zero b = none
  allocate_loop (suc fuel) b =
      let cand = b.next in
      let b' = record b { next = saturating_add b.next 0x1000 } in
      let rest = allocate_loop fuel b' in
      if not (leb (add64 b.next 0x1000) b.end)
      then some (none, b)
      else if reserved cand
      then rest
      else some (some cand, b')

  -- Each round passes a page, so the pages up to the end are rounds enough.
  unfoldable pub allocate_frame : TinyBump → Option (Option ℕ × TinyBump)
  allocate_frame b = allocate_loop (suc ((b.end - b.next) / 4096)) b
