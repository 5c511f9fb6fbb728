-- ===== src/Breakpoint/Hit.antt =====
-- A breakpoint that is hit: `on_breakpoint_enter` uncovers the original instruction and rewinds to
-- it, and `on_resume_continue` plants the breakpoint again.
use jotunheim.Prelude.{
  ℕ, ◌≡◌, refl, ap, ◌⊎◌, inl, inr, true, false, ◌&&◌, Option, none, some, arith, ◌==◌, Option-cases,
}
use mathlib.Core.Path.{subst}
use jotunheim.Prelude.Lists.{get_elem?, set}
use jotunheim.Prelude.Words.{sub64}
use jotunheim.Machine.{write_byte, with_wp_disabled}
use jotunheim.Breakpoint.{Bp, Breaks, find_bp, on_breakpoint_enter}
use jotunheim.Breakpoint.Table.{Distinct-AbsentBut, Distinct-set, orig_at}
use jotunheim.Breakpoint.Search.{find_bp-get_elem?, find_bp-none}
use jotunheim.Breakpoint.Shadow.{shadow, Inv}
use jotunheim.Breakpoint.Removal.{restored, restored-shadow, restored-Inv, restored-orig_at}

abbrev disarmed : Bp → Bp
disarmed bp = record bp { armed = false }

module _ (s : Breaks) (v : Inv s) (rip : ℕ) where
  enter_cases {ℓ} :
      (P : Option ℕ → ℕ → Breaks → Type ℓ)
      → (find_bp (λ bp. bp.addr == sub64 rip 1 && bp.armed) s.table ≡ none → P none rip s)
      → ((i : ℕ) (bp : Bp) (at : get_elem? s.table i ≡ some (some bp))
          → bp.addr ≡ sub64 rip 1
          → bp.armed ≡ true
          → P (some (sub64 rip 1)) (sub64 rip 1) (restored s v i bp (some (disarmed bp)) refl at))
      → P (on_breakpoint_enter rip s).0 (on_breakpoint_enter rip s).1 (on_breakpoint_enter rip s).2
  unfolding on_breakpoint_enter restored
  enter_cases P missed hit =
      elim (Option-cases (find_bp (λ bp. bp.addr == sub64 rip 1 && bp.armed) s.table)) [
        | inl e ↦ rw (e, on_breakpoint_enter) (missed e)
        | inr ((i, bp), e) ↦
            let (at, found) =
              find_bp-get_elem? (λ b. b.addr == sub64 rip 1 && b.armed) s.table i bp e in
            let there : bp.addr ≡ sub64 rip 1 = ground arith in
            let armed : bp.armed ≡ true = ground arith in
            let same : restored s v i bp (some (disarmed bp)) refl at ≡ record s {
              table = set s.table i (some (disarmed bp));
              machine = with_wp_disabled (write_byte (sub64 rip 1) bp.orig) s.machine;
            } =
              rw armed (
                ap
                  (λ a. record s {
                    table = set s.table i (some (disarmed bp));
                    machine = with_wp_disabled (write_byte a bp.orig) s.machine;
                  })
                  there) in
            rw (e, on_breakpoint_enter)
              (subst (P (some (sub64 rip 1)) (sub64 rip 1)) same (hit i bp at there armed))
      ]

  -- Entering the debugger keeps the table well formed.
  pub on_breakpoint_enter-Inv : Inv (on_breakpoint_enter rip s).2
  on_breakpoint_enter-Inv =
      enter_cases (λ _ _ s'. Inv s') (λ e. v)
        λ i bp at there armed. restored-Inv s v i bp (some (disarmed bp)) refl at (
          Distinct-set (disarmed bp) i s.table v.distinct
            (Distinct-AbsentBut bp i s.table v.distinct at))

  -- Entering the debugger changes no byte of the text behind the breakpoints.
  pub on_breakpoint_enter-shadow : (a : ℕ) → shadow (on_breakpoint_enter rip s).2 a ≡ shadow s a
  on_breakpoint_enter-shadow a =
      enter_cases (λ _ _ s'. shadow s' a ≡ shadow s a) (λ e. refl)
        λ i bp at there armed. restored-shadow s v i bp (some (disarmed bp)) refl at a

  -- A breakpoint is armed at the address before the instruction pointer.
  abbrev pub IsHit : Type 0
  IsHit =
      (i : ℕ) × (bp : Bp) × (get_elem? s.table i ≡ some (some bp))
      × (bp.addr ≡ sub64 rip 1)
      × (bp.armed ≡ true)

  IsHit-find_bp : find_bp (λ bp. bp.addr == sub64 rip 1 && bp.armed) s.table ≡ none → ¬ IsHit
  IsHit-find_bp e (i, bp, at, there, armed) =
      let passed = find_bp-none (λ b. b.addr == sub64 rip 1 && b.armed) s.table i bp e at in
      ground arith

  -- In a well-formed table: where a breakpoint is armed at the address before the instruction pointer,
  -- it is hit, the instruction pointer moves back onto it, and what is in memory there is the program's
  -- own byte; where none is, nothing changes.
  pub on_breakpoint_enter_hit :
      let r = on_breakpoint_enter rip s in
      ((¬ IsHit) × (r.0 ≡ none) × (r.1 ≡ rip) × (r.2 ≡ s))
      ⊎ (IsHit
          × (r.0 ≡ some (sub64 rip 1))
          × (r.1 ≡ sub64 rip 1)
          × (r.2.machine.bytes (sub64 rip 1) ≡ shadow s (sub64 rip 1)))
  on_breakpoint_enter_hit =
      enter_cases
        (λ hit rip' s'.
          ((¬ IsHit) × (hit ≡ none) × (rip' ≡ rip) × (s' ≡ s))
          ⊎ (IsHit
              × (hit ≡ some (sub64 rip 1))
              × (rip' ≡ sub64 rip 1)
              × (s'.machine.bytes (sub64 rip 1) ≡ shadow s (sub64 rip 1))))
        (λ e. inl (IsHit-find_bp e, refl, refl, refl))
        λ i bp at there armed.
          let s' : Breaks = restored s v i bp (some (disarmed bp)) refl at in
          let gone : orig_at s'.table (sub64 rip 1) ≡ none =
            ground (arith, restored-orig_at s v i bp (some (disarmed bp)) refl at (sub64 rip 1)) in
          inr (
            (i, bp, at, there, armed),
            refl,
            refl,
            rw (gone, shadow) at
                (restored-shadow s v i bp (some (disarmed bp)) refl at (sub64 rip 1)),
          )
