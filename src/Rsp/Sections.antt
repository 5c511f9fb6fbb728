-- ===== src/Rsp/Sections.antt =====
-- What the debugger may touch: jotunheimkernel/src/debug/rsp/memory.rs. The bounds of the sections
-- are symbols of the linker.
use jotunheim.Prelude.{
  ℕ, ◌+◌, ◌≤◌, ◌<◌, ◌≡◌, ◌⊎◌, inl, inr, Bool, true, false, ◌&&◌, ◌||◌, Option, none, some, List, [],
  ◌∷◌, arith, ltb, leb, if◌then◌else◌, Bool-cases,
}
use jotunheim.Prelude.Words.{u64_mod}

-- The sections, each from its first byte to behind its last one.
pub record Sections : Type 0 where
  pub text : ℕ × ℕ
  pub rodata : ℕ × ℕ
  pub data_section : ℕ × ℕ
  pub bss : ℕ × ℕ

abbrev pub kheap_start : ℕ
kheap_start = 0xffff_c000_0000_0000

abbrev pub kheap_size : ℕ
kheap_size = 0x200_0000

abbrev pub checked_add : ℕ → ℕ → Option ℕ
checked_add a b = if ltb (a + b) u64_mod then some (a + b) else none

unfoldable pub in_range : ℕ → ℕ → ℕ × ℕ → Bool
in_range addr len (s, e) =
    leb s addr && elim (checked_add addr len) [ none ↦ false | some a ↦ leb a e ]

unfoldable pub in_any_range : ℕ → ℕ → List (ℕ × ℕ) → Bool
in_any_range addr len [] = false
in_any_range addr len (r ∷ rs) = in_range addr len r || in_any_range addr len rs

abbrev pub heap : ℕ × ℕ
heap = (kheap_start, kheap_start + kheap_size)

unfoldable pub can_read : Sections → ℕ → ℕ → Bool
can_read m addr len = in_any_range addr len (m.text ∷ m.rodata ∷ m.data_section ∷ m.bss ∷ heap ∷ [])

unfoldable pub can_write : Sections → ℕ → ℕ → Bool
can_write m addr len = in_any_range addr len (m.data_section ∷ m.bss ∷ heap ∷ [])

-- The whole range lies between the two addresses.
abbrev pub Within : ℕ → ℕ → ℕ × ℕ → Type 0
Within addr len (s, e) = (s ≤ addr) × (addr + len ≤ e) × (addr + len < u64_mod)

in_range-Within : (addr len : ℕ) (r : ℕ × ℕ) → in_range addr len r ≡ true → Within addr len r
unfolding in_range
in_range-Within addr len (s, e) h = ground arith

-- A range that may be written lies in one writable section, wholly and without wrapping around, and
-- may be read too.
pub can_write-Within :
    (m : Sections) (addr len : ℕ)
    → can_write m addr len ≡ true
    → (Within addr len m.data_section ⊎ (Within addr len m.bss ⊎ Within addr len heap))
      × (can_read m addr len ≡ true)
unfolding can_write can_read in_any_range
can_write-Within m addr len h = (
  elim (Bool-cases (in_range addr len m.data_section)) [
    | inl e ↦ inl (in_range-Within addr len m.data_section e)
    | inr a ↦ elim (Bool-cases (in_range addr len m.bss)) [
      | inl e ↦ inr (inl (in_range-Within addr len m.bss e))
      | inr b ↦ inr (inr (in_range-Within addr len heap (ground arith)))
    ]
  ],
  ground arith,
)
