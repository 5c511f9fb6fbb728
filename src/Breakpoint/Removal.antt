-- ===== src/Breakpoint/Removal.antt =====
-- `remove` and `on_breakpoint_enter`: one entry is cleared or disarmed, and the text behind the
-- breakpoints is what it was.
use jotunheim.Prelude.{
  ℕ, ◌≡◌, refl, ◌∙◌, inl, inr, false, Option, none, some, arith, ◌==◌, ==→eq, if◌then◌else◌,
  Bool-cases, Option-cases,
}
use jotunheim.Prelude.Lists.{get_elem?, set, length-set, All-set, All-get_elem?}
use jotunheim.Machine.{Machine, bytes-patch}
use jotunheim.Breakpoint.{Bp, Breaks, is_armed, find_bp, remove}
use jotunheim.Breakpoint.Table.{
  Distinct, AbsentBut, orig_at, Distinct-AbsentBut, orig_at_entry, orig_at_disarm, Distinct-clear,
}
use jotunheim.Breakpoint.Search.{find_bp-get_elem?}
use jotunheim.Breakpoint.Shadow.{shadow, Inv, IsPlanted, patched, All-IsPlanted-set}

quiet-IsPlanted : (m : Machine) (e' : Option Bp) → is_armed (some e') ≡ false → IsPlanted m e'
quiet-IsPlanted m none quiet = tt
quiet-IsPlanted m (some bp) quiet = λ armed. cc

-- One entry is disarmed or cleared, and the byte that it hid is written back if it was armed.
module _ (s : Breaks) (v : Inv s) (i : ℕ) (bp : Bp) (e' : Option Bp)
    (quiet : is_armed (some e') ≡ false) (at : get_elem? s.table i ≡ some (some bp)) where
  unfoldable pub restored : Breaks
  restored = record s {
    table = set s.table i e';
    machine = if bp.armed then patched bp.addr bp.orig s.machine else s.machine;
  }

  pub restored-shadow : (a : ℕ) → shadow restored a ≡ shadow s a
  unfolding restored
  restored-shadow a =
      let but : AbsentBut i bp.addr s.table = Distinct-AbsentBut bp i s.table v.distinct at in
      ground (
        arith,
        orig_at_disarm bp e' i s.table a quiet but at,
        orig_at_entry bp i s.table but at,
        bytes-patch s.machine bp.addr bp.orig a,
        All-get_elem? (IsPlanted s.machine) s.table i v.planted at,
      )

  pub restored-Inv : Distinct (set s.table i e') → Inv restored
  unfolding restored
  restored-Inv distinct = record {
    size = length-set s.table i e' ∙ v.size;
    distinct = distinct;
    planted = elim (Bool-cases bp.armed) [
      | inl armed ↦ rw armed (
          All-IsPlanted-set s.machine bp.addr bp.orig i e' s.table
            (Distinct-AbsentBut bp i s.table v.distinct at) v.planted
            (quiet-IsPlanted (patched bp.addr bp.orig s.machine) e' quiet))
      | inr off ↦ rw off (
          All-set (IsPlanted s.machine) s.table i e' v.planted (quiet-IsPlanted s.machine e' quiet))
    ];
  }

  pub restored-orig_at :
      (a : ℕ) → orig_at restored.table a ≡ (if bp.addr == a then none else orig_at s.table a)
  unfolding restored
  restored-orig_at a =
      orig_at_disarm bp e' i s.table a quiet (Distinct-AbsentBut bp i s.table v.distinct at) at

module _ (s : Breaks) (v : Inv s) (addr : ℕ) where
  remove_cases {ℓ} :
      (P : Breaks → Type ℓ)
      → P s
      → ((i : ℕ) (bp : Bp) (at : get_elem? s.table i ≡ some (some bp))
          → bp.addr ≡ addr
          → P (restored s v i bp none refl at))
      → P (remove addr s).1
  unfolding remove restored
  remove_cases P same cleared = elim (Option-cases (find_bp (λ bp. bp.addr == addr) s.table)) [
    | inl e ↦ rw (e, remove) same
    | inr ((i, bp), e) ↦
        let (at, found) = find_bp-get_elem? (λ b. b.addr == addr) s.table i bp e in
        let same_addr : bp.addr ≡ addr = ==→eq _ _ found in
        rw (e, remove) (rw (same_addr) at (cleared i bp at same_addr))
  ]

  -- `remove` keeps the table well formed.
  pub remove-Inv : Inv (remove addr s).1
  remove-Inv =
      remove_cases Inv v
        λ i bp at k. restored-Inv s v i bp none refl at (Distinct-clear i s.table v.distinct)

  -- `remove` changes no byte of the text behind the breakpoints.
  pub remove-shadow : (a : ℕ) → shadow (remove addr s).1 a ≡ shadow s a
  remove-shadow a =
      remove_cases (λ s'. shadow s' a ≡ shadow s a) refl
        λ i bp at k. restored-shadow s v i bp none refl at a
