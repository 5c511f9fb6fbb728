-- ===== src/Acpi/Madt/Entries.antt =====
-- What the entries of the table of processors and controllers say, read off the table itself, for
-- `discover` of jotunheimkernel/src/acpi/madt.rs.
use jotunheim.Prelude.{
  ℕ, ◌+◌, ◌%◌, ◌≤◌, ◌<◌, ◌≡◌, ◌≢◌, refl, sym, Bool, true, false, not, ◌&&◌, List, [], ◌∷◌, ◌++◌,
  append-nil, append_assoc, arith, leb, ◌==◌, if◌then◌else◌,
}
use jotunheim.Prelude.Buffer.{Buffer}
use jotunheim.Acpi.Tables.{le_at}
use jotunheim.Acpi.Madt.{CpuEntry, IoApic, MadtInfo, kind_of, read_entry}

-- From offset `p` on, each entry that the walk comes to ends within the table; the entries begin at the
-- offsets `ps`, and behind them the table ends, or an entry of no bytes follows.
pub data EntriesFit (mem : Buffer) (base len : ℕ) : ℕ → List ℕ → Type 0 where
  past_end : (p : ℕ) → len < p + 2 → EntriesFit mem base len p []
  empty_entry : (p : ℕ) → p + 2 ≤ len → mem (base + p + 1) ≡ 0 → EntriesFit mem base len p []
  entry :
      (p : ℕ) (ps : List ℕ)
      → p + 2 ≤ len
      → mem (base + p + 1) ≢ 0
      → p + mem (base + p + 1) ≤ len
      → EntriesFit mem base len (p + mem (base + p + 1)) ps
      → EntriesFit mem base len p (p ∷ ps)

module _ (mem : Buffer) (base : ℕ) where
  -- The entry at `p` is of this type and has as many bytes as the type needs.
  abbrev pub is_entry : (typ least p : ℕ) → Bool
  is_entry typ least p = mem (base + p) == typ && leb least (mem (base + p + 1))

  abbrev enabled : ℕ → Bool
  enabled e = not (le_at 4 mem e % 2 == 0)

  abbrev local_cpu : ℕ → CpuEntry
  local_cpu p = record {
    apic_id = mem (base + p + 3);
    enabled = enabled (base + p + 4);
    is_x2apic = false;
  }

  abbrev x2apic_cpu : ℕ → CpuEntry
  x2apic_cpu p = record {
    apic_id = le_at 4 mem (base + p + 4);
    enabled = enabled (base + p + 8);
    is_x2apic = true;
  }

  abbrev io_controller : ℕ → IoApic
  io_controller p = record {
    id = mem (base + p + 2);
    mmio_base_phys = le_at 4 mem (base + p + 4);
    gsi_base = le_at 4 mem (base + p + 8);
  }

  -- The processors that the entries at the offsets name, in order: types 0 and 9 of the specification.
  abbrev pub cpus_at : List ℕ → List CpuEntry
  cpus_at [] = []
  cpus_at (p ∷ ps) =
      if is_entry 0 8 p
      then local_cpu p ∷ cpus_at ps
      else if is_entry 9 16 p
      then x2apic_cpu p ∷ cpus_at ps
      else cpus_at ps

  -- The controllers of inputs and outputs: type 1.
  abbrev pub ioapics_at : List ℕ → List IoApic
  ioapics_at [] = []
  ioapics_at (p ∷ ps) = if is_entry 1 12 p then io_controller p ∷ ioapics_at ps else ioapics_at ps

  -- The local controllers' address: the last entry of type 5, or else the one given.
  abbrev pub lapic_at : ℕ → List ℕ → ℕ
  lapic_at phys [] = phys
  lapic_at phys (p ∷ ps) =
      if is_entry 5 12 p then lapic_at (le_at 8 mem (base + p + 4)) ps else lapic_at phys ps

  -- What the entries at the offsets `ps` add to `info`.
  abbrev pub Reads : MadtInfo → List ℕ → MadtInfo → Type 0
  Reads info ps info' =
      (info'.lapic_phys ≡ lapic_at info.lapic_phys ps)
      × (info'.cpus ≡ info.cpus ++ cpus_at ps)
      × (info'.ioapics ≡ info.ioapics ++ ioapics_at ps)

  pub Reads-cons :
      (info info' : MadtInfo) (p : ℕ) (ps : List ℕ)
      → Reads
          (read_entry (kind_of (mem (base + p)) (mem (base + p + 1))) mem (base + p) info)
          ps
          info'
      → Reads info (p ∷ ps) info'
  unfolding read_entry
  Reads-cons info info' p ps (phys, cpus, ioapics) = ground (
    arith,
    phys,
    cpus,
    ioapics,
    append_assoc info.cpus (local_cpu p ∷ []) (cpus_at ps),
    append_assoc info.cpus (x2apic_cpu p ∷ []) (cpus_at ps),
    append_assoc info.ioapics (io_controller p ∷ []) (ioapics_at ps),
  )

  pub Reads-nil : (info : MadtInfo) → Reads info [] info
  Reads-nil info = (refl, sym (append-nil info.cpus), sym (append-nil info.ioapics))
