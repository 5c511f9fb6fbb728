-- ===== src/Breakpoint/Examples.antt =====
-- Runs of the breakpoint table, and the theorems at inputs that meet their hypotheses.
use jotunheim.Prelude.{ℕ, ◌≡◌, refl, ◌⊎◌, true, none, some}
use jotunheim.Prelude.Words.{sub64}
use jotunheim.Machine.{Machine, read_byte, write_byte, with_wp_disabled}
use jotunheim.Breakpoint.{
  Breaks, init, insert, insert_at, plant, find_slot, find_from, find_bp, on_breakpoint_enter,
}
use jotunheim.Breakpoint.Shadow.{shadow, Inv, init-Inv, insert-Inv}
use jotunheim.Breakpoint.Runs.{Reached, started, inserted, entered, Reached-Inv}
use jotunheim.Breakpoint.Int3.{insert-int3}
use jotunheim.Breakpoint.Hit.{IsHit, on_breakpoint_enter_hit}

-- Memory full of `nop`.
abbrev nops : Machine
nops = record { bytes = λ _. 0x90; ram = λ _. true; write_protect = true }

abbrev planted : Breaks
planted = (insert 0x1000 (init nops)).1

planted-Inv : Inv planted
planted-Inv = insert-Inv (init nops) (init-Inv nops) 0x1000

insert_runs : planted.machine.bytes 0x1000 ≡ 0xcc
unfolding insert insert_at find_slot find_from plant read_byte with_wp_disabled write_byte init
insert_runs = refl

enter_runs : (on_breakpoint_enter 0x1001 planted).0 ≡ some 0x1000
unfolding insert insert_at find_slot find_from plant read_byte with_wp_disabled write_byte init
    on_breakpoint_enter find_bp
enter_runs = refl

on_breakpoint_enter_hit_example :
    let r = on_breakpoint_enter 0x1001 planted in
    ((¬ IsHit planted planted-Inv 0x1001) × (r.0 ≡ none) × (r.1 ≡ 0x1001) × (r.2 ≡ planted))
    ⊎ (IsHit planted planted-Inv 0x1001
        × (r.0 ≡ some (sub64 0x1001 1))
        × (r.1 ≡ sub64 0x1001 1)
        × (r.2.machine.bytes (sub64 0x1001 1) ≡ shadow planted (sub64 0x1001 1)))
on_breakpoint_enter_hit_example = on_breakpoint_enter_hit planted planted-Inv 0x1001

insert_succeeds : (insert 0x1000 (init nops)).0 ≡ true
unfolding insert insert_at find_slot find_from plant read_byte with_wp_disabled write_byte init
insert_succeeds = refl

insert-int3_example : (insert 0x1000 (init nops)).1.machine.bytes 0x1000 ≡ 0xcc
insert-int3_example = insert-int3 (init nops) (init-Inv nops) 0x1000 insert_succeeds

session : Reached nops (on_breakpoint_enter 0x1001 planted).2
session = entered planted 0x1001 (inserted (init nops) 0x1000 started)

Reached-Inv_example :
    Inv (on_breakpoint_enter 0x1001 planted).2
    × ((a : ℕ) → shadow (on_breakpoint_enter 0x1001 planted).2 a ≡ 0x90)
Reached-Inv_example = Reached-Inv nops (on_breakpoint_enter 0x1001 planted).2 session
