-- ===== src/Breakpoint/Search.antt =====
-- What `find_slot` and the searches of `remove` and `on_breakpoint_enter` find.
use jotunheim.Prelude.{
  ℕ, zero, suc, ap, sym, ◌∙◌, false, ◌+◌, ◌≡◌, ◌≢◌, refl, inl, inr, Bool, true, Option, none, some,
  [], ◌∷◌, arith, ◌==◌, ==→eq, Bool-cases, Option-cases,
}
use jotunheim.Prelude.Lists.{get_elem?}
use jotunheim.Breakpoint.{Bp, Slots, find_from, find_slot, find_bp}
use jotunheim.Breakpoint.Table.{Absent}

-- What a search for `addr` from entry `i` on may return.
pub data Found (addr i : ℕ) (free : Option ℕ) (es : Slots) (r : Option ℕ) : Type 0 where
  at_entry :
      (j : ℕ) (bp : Bp)
      → r ≡ some (i + j)
      → get_elem? es j ≡ some (some bp)
      → bp.addr ≡ addr
      → Found addr i free es r
  at_free :
      (j : ℕ)
      → r ≡ some (i + j)
      → get_elem? es j ≡ some none
      → Absent addr es
      → Found addr i free es r
  nowhere : r ≡ free → Absent addr es → Found addr i free es r

find_from-Found :
    (addr i : ℕ) (free : Option ℕ) (es : Slots) → Found addr i free es (find_from addr i free es)
unfolding find_from
find_from-Found addr i free [] = nowhere refl tt
find_from-Found addr i none (none ∷ es) = elim (find_from-Found addr (suc i) (some i) es) [
  | at_entry j bp e g k ↦ at_entry (suc j) bp (ground arith) g k
  | at_free j e g h ↦ at_free (suc j) (ground arith) g (tt, h)
  | nowhere e h ↦ at_free 0 (ground arith) refl (tt, h)
]
find_from-Found addr i (some f) (none ∷ es) = elim (find_from-Found addr (suc i) (some f) es) [
  | at_entry j bp e g k ↦ at_entry (suc j) bp (ground arith) g k
  | at_free j e g h ↦ at_free (suc j) (ground arith) g (tt, h)
  | nowhere e h ↦ nowhere e (tt, h)
]
find_from-Found addr i free (some b ∷ es) = elim (Bool-cases (b.addr == addr)) [
  | inl same ↦ at_entry 0 b (rw (same, find_from) (ground arith)) refl (==→eq _ _ same)
  | inr other ↦
      let ne : b.addr ≢ addr = ground arith in
      elim (find_from-Found addr (suc i) free es) [
        | at_entry j bp e g k ↦ at_entry (suc j) bp (ground arith) g k
        | at_free j e g h ↦ at_free (suc j) (ground arith) g (ne, h)
        | nowhere e h ↦ nowhere (ground arith) (ne, h)
      ]
]

pub find_slot-Found : (addr : ℕ) (es : Slots) → Found addr 0 none es (find_slot addr es)
unfolding find_slot
find_slot-Found addr es = find_from-Found addr 0 none es

pub find_bp-get_elem? :
    (wanted : Bp → Bool) (es : Slots) (i : ℕ) (bp : Bp)
    → find_bp wanted es ≡ some (i, bp)
    → (get_elem? es i ≡ some (some bp)) × (wanted bp ≡ true)
unfolding find_bp
find_bp-get_elem? wanted [] i bp e = cc
find_bp-get_elem? wanted (none ∷ es) i bp e = elim (Option-cases (find_bp wanted es)) [
  | inl k ↦ ground arith
  | inr ((j, b), k) ↦ let (g, w) = find_bp-get_elem? wanted es j b k in (ground arith, ground arith)
]
find_bp-get_elem? wanted (some b' ∷ es) i bp e = elim (Bool-cases (wanted b')) [
  | inl w ↦ (ground arith, ground arith)
  | inr w ↦ elim (Option-cases (find_bp wanted es)) [
    | inl k ↦ ground arith
    | inr ((j, b), k) ↦
        let (g, w) = find_bp-get_elem? wanted es j b k in (ground arith, ground arith)
  ]
]

-- A search that finds nothing has passed no entry that was wanted.
pub find_bp-none :
    (wanted : Bp → Bool) (es : Slots) (i : ℕ) (bp : Bp)
    → find_bp wanted es ≡ none
    → get_elem? es i ≡ some (some bp)
    → wanted bp ≡ false
unfolding find_bp
find_bp-none wanted [] i bp e at = cc
find_bp-none wanted (none ∷ es) zero bp e at = cc
find_bp-none wanted (none ∷ es) (suc i) bp e at = elim (Option-cases (find_bp wanted es)) [
  | inl k ↦ find_bp-none wanted es i bp k at
  | inr ((j, b), k) ↦ ground arith
]
find_bp-none wanted (some b' ∷ es) zero bp e at = elim (Bool-cases (wanted b')) [
  | inl w ↦ elim (Option-cases (find_bp wanted es)) [
    | inl k ↦ ground arith
    | inr ((j, b), k) ↦ ground arith
  ]
  | inr w ↦ let same : b' ≡ bp = cc in ap wanted (sym same) ∙ w
]
find_bp-none wanted (some b' ∷ es) (suc i) bp e at = elim (Bool-cases (wanted b')) [
  | inl w ↦ ground arith
  | inr w ↦ elim (Option-cases (find_bp wanted es)) [
    | inl k ↦ find_bp-none wanted es i bp k at
    | inr ((j, b), k) ↦ ground arith
  ]
]
