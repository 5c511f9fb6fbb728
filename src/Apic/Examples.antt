-- ===== src/Apic/Examples.antt =====
-- Runs of the interrupt controller's code, and the theorems at inputs that meet their hypotheses.
use jotunheim.Prelude.{◌≡◌, refl, true, false, [], ◌∷◌, arith}
use jotunheim.Apic.{
  Apic, unknown, write_msr, early_init, ap_init, lapic_id, eoi, ipi_fixed, send_init, send_startup,
}
use jotunheim.Apic.Commands.{decode, fixed, init_pair, startup, commands_equivalent}

abbrev reset : Apic
reset = record { base_msr = 0xfee00900; mode = unknown; hhdm_base = 0 }

abbrev mapped : Apic
mapped = ap_init false 0xffff888000000000 reset

eoi_runs : eoi (early_init true reset) ≡ write_msr 0x80b 0 ∷ []
unfolding eoi early_init
eoi_runs = refl

lapic_id_runs : (lapic_id (λ r. 7) (λ r. 0x3000000) false mapped).0 ≡ 3
unfolding lapic_id ap_init
lapic_id_runs = refl

commands_equivalent_example :
    (decode mapped 0 (ipi_fixed 3 0x40 mapped) ≡ fixed 3 0x40)
    × (decode mapped 0 (send_init 3 mapped) ≡ init_pair 3)
    × (decode mapped 0 (send_startup 3 0x40 mapped) ≡ startup 3 0x40)
commands_equivalent_example = commands_equivalent mapped 0 3 0x40 (omega arith) (omega arith)
