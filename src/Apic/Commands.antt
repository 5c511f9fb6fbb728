-- ===== src/Apic/Commands.antt =====
-- The interrupts that the processor sends, whichever way its controller is reached.
use jotunheim.Prelude.{
  ℕ, ◌+◌, ◌*◌, ◌/◌, ◌%◌, ◌^◌, ◌<◌, ◌≡◌, refl, ap, ◌∙◌, ◌⊎◌, inl, inr, ◌++◌, false, List, [], ◌∷◌,
  ◌==◌, ==_refl, arith, if◌then◌else◌, bit_and, bit_or,
}
use native.Mathlib.Nat.{zero-add}
use jotunheim.Prelude.Bits.{bit_or-add, bit_or-shift, bit_and-low}
use jotunheim.Apic.{
  Apic, Mode, unknown, x2apic, xapic_phys, xapic, Access, write_msr, write_at, wait_msr, wait_at,
  register, msr_x2apic_icr, lapic_icrlo, lapic_icrhi, ipi_fixed, send_init, send_startup, write_icr,
  write_icr_x2, wait_icr, wait_icr_x2, init_at, startup_at, lo_assert, lo_deassert,
}

-- An interrupt command: the destination, and the low half of the command register.
pub record Command : Type 0 where
  pub dest : ℕ
  pub low : ℕ

abbrev pub command : ℕ → ℕ → Command
command dest low = record { dest = dest; low = low }

-- The commands that the controller carries out: a write of the x2APIC register is one, and a write of
-- the low half in memory is one for the destination in the high half `hi`.
abbrev pub decode : Apic → ℕ → List Access → List Command
decode a hi [] = []
decode a hi (write_msr r v ∷ accesses) =
    let rest = decode a hi accesses in
    if r == msr_x2apic_icr then command (v / 2 ^ 32) (v % 2 ^ 32) ∷ rest else rest
decode a hi (write_at r v ∷ accesses) =
    let rest = decode a hi accesses in
    let set = decode a v accesses in
    if r == register a lapic_icrhi
    then set
    else if r == register a lapic_icrlo
    then command (hi / 2 ^ 24) v ∷ rest
    else rest
decode a hi (wait_msr r ∷ accesses) = decode a hi accesses
decode a hi (wait_at r ∷ accesses) = decode a hi accesses

module _ (a : Apic) (hi dest : ℕ) (small : dest < 256) where
  decode-write_icr :
      (lo : ℕ) (rest : List Access)
      → decode a hi (
          write_at (register a lapic_icrhi) (dest * 2 ^ 24 % 2 ^ 32)
          ∷ write_at (register a lapic_icrlo) lo
          ∷ rest)
        ≡ command dest lo ∷ decode a (dest * 2 ^ 24 % 2 ^ 32) rest
  decode-write_icr lo rest =
      let back : dest * 2 ^ 24 % 2 ^ 32 / 2 ^ 24 ≡ dest = omega arith in
      let ne : (register a lapic_icrlo == register a lapic_icrhi) ≡ false = ground arith in
      rw (==_refl (register a lapic_icrhi), ne, ==_refl (register a lapic_icrlo), back) refl

  decode-write_icr_x2 :
      (lo : ℕ) (rest : List Access)
      → lo < 2 ^ 32
      → decode a hi (write_msr msr_x2apic_icr (bit_or (dest * 2 ^ 32) lo) ∷ rest)
        ≡ command dest lo ∷ decode a hi rest
  decode-write_icr_x2 lo rest h =
      let sum : bit_or (dest * 2 ^ 32) lo ≡ dest * 2 ^ 32 + lo = bit_or-add 32 dest lo h in
      let upper : (dest * 2 ^ 32 + lo) / 2 ^ 32 ≡ dest = omega arith in
      let lower : (dest * 2 ^ 32 + lo) % 2 ^ 32 ≡ lo = omega arith in rw (sum, upper, lower) refl

-- What the three operations send: a fixed interrupt of the vector, INIT asserted and then not, and a
-- startup interrupt with the page number.
abbrev pub fixed : ℕ → ℕ → List Command
fixed dest vector = command dest vector ∷ []

abbrev pub init_pair : ℕ → List Command
init_pair dest = command dest 0xc500 ∷ command dest 0x8500 ∷ []

abbrev pub startup : ℕ → ℕ → List Command
startup dest vector = command dest (0x600 + vector) ∷ []

Mode-cases : (m : Mode) → (m ≡ x2apic) ⊎ ((m ≡ xapic) ⊎ ((m ≡ xapic_phys) ⊎ (m ≡ unknown)))
Mode-cases x2apic = inl refl
Mode-cases xapic = inr (inl refl)
Mode-cases xapic_phys = inr (inr (inl refl))
Mode-cases unknown = inr (inr (inr refl))

fixed_low : (vector : ℕ) → vector < 256 → bit_or (0 * 2 ^ 8) vector ≡ vector
fixed_low vector h = omega (arith, bit_or-add 8 0 vector h)

startup_low :
    (vector : ℕ) → vector < 256 → bit_or (bit_and vector 0xff) (6 * 2 ^ 8) ≡ 0x600 + vector
startup_low vector h =
    ground (arith, zero-add vector, bit_and-low 8 0 vector h, bit_or-shift 8 0 vector 6 h)

module _ (a : Apic) (hi dest vector : ℕ) (small : dest < 256) (byte : vector < 256) where
  -- The accesses of the three operations, in memory and by MSR.
  abbrev Sends : List Access → List Access → List Access → Type 0
  Sends ipi init sipi =
      (decode a hi ipi ≡ fixed dest vector)
      × (decode a hi init ≡ init_pair dest)
      × (decode a hi sipi ≡ startup dest vector)

  by_memory :
      Sends
        (write_icr dest (bit_or (0 * 2 ^ 8) vector) a)
        (init_at dest a)
        (startup_at dest (bit_and vector 0xff) a)
  by_memory = (
    decode-write_icr a hi dest small _ []
        ∙ ap (λ (l : ℕ). command dest l ∷ []) (fixed_low vector byte),
    decode-write_icr a hi dest small lo_assert
          (wait_icr a ++ write_icr dest lo_deassert a ++ wait_icr a)
        ∙ ap (λ (r : List Command). command dest 0xc500 ∷ r)
            (decode-write_icr a (dest * 2 ^ 24 % 2 ^ 32) dest small lo_deassert (wait_icr a)),
    decode-write_icr a hi dest small (bit_or (bit_and vector 0xff) (6 * 2 ^ 8)) (wait_icr a)
        ∙ ap (λ (l : ℕ). command dest l ∷ []) (startup_low vector byte),
  )

  by_msr :
      Sends
        (write_icr_x2 dest (bit_or (0 * 2 ^ 8) vector))
        (write_icr_x2 dest lo_assert ++ wait_icr_x2 ++ write_icr_x2 dest lo_deassert ++ wait_icr_x2)
        (write_icr_x2 dest (bit_or (bit_and vector 0xff) (6 * 2 ^ 8)) ++ wait_icr_x2)
  by_msr =
      let f = fixed_low vector byte in
      let u = startup_low vector byte in
      (
        decode-write_icr_x2 a hi dest small _ [] (omega (arith, f))
            ∙ ap (λ (l : ℕ). command dest l ∷ []) f,
        decode-write_icr_x2 a hi dest small lo_assert
              (wait_icr_x2 ++ write_icr_x2 dest lo_deassert ++ wait_icr_x2) (omega arith)
            ∙ ap (λ (r : List Command). command dest 0xc500 ∷ r)
                (decode-write_icr_x2 a hi dest small lo_deassert wait_icr_x2 (omega arith)),
        decode-write_icr_x2 a hi dest small (bit_or (bit_and vector 0xff) (6 * 2 ^ 8)) wait_icr_x2
              (omega (arith, u))
            ∙ ap (λ (l : ℕ). command dest l ∷ []) u,
      )

-- In every mode of the controller, by MSR or by memory, mapped or not yet, the accesses of
-- `ipi_fixed`, `send_init` and `send_startup` carry out the same commands, for a destination and a
-- vector of eight bits: a fixed interrupt, INIT asserted and then deasserted, a startup interrupt for
-- the page, each for the destination.
pub commands_equivalent :
    (a : Apic) (hi dest vector : ℕ)
    → dest < 256
    → vector < 256
    → (decode a hi (ipi_fixed dest vector a) ≡ fixed dest vector)
      × (decode a hi (send_init dest a) ≡ init_pair dest)
      × (decode a hi (send_startup dest vector a) ≡ startup dest vector)
unfolding ipi_fixed send_init send_startup
commands_equivalent a hi dest vector small byte =
    let memory = by_memory a hi dest vector small byte in
    let msr = by_msr a hi dest vector small byte in
    elim (Mode-cases a.mode) [
      | inl e ↦ (rw (ipi_fixed, e) msr.0, rw (send_init, e) msr.1, rw (send_startup, e) msr.2)
      | inr (inl e) ↦
          (rw (ipi_fixed, e) memory.0, rw (send_init, e) memory.1, rw (send_startup, e) memory.2)
      | inr (inr (inl e)) ↦
          (rw (ipi_fixed, e) memory.0, rw (send_init, e) memory.1, rw (send_startup, e) memory.2)
      | inr (inr (inr e)) ↦
          (rw (ipi_fixed, e) memory.0, rw (send_init, e) memory.1, rw (send_startup, e) memory.2)
    ]
