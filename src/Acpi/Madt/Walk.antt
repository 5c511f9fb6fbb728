-- ===== src/Acpi/Madt/Walk.antt =====
-- The walk over the table's entries ends, and does not panic on a table whose entries lie within it.
use jotunheim.Prelude.{
  ℕ, zero, suc, ◌+◌, ◌≤◌, ◌<◌, ◌≡◌, ◌≢◌, List, [], false, arith, ltb, inl, inr, Option-cases,
}
use jotunheim.Prelude.Buffer.{Buffer}
use jotunheim.Prelude.Words.{add64}
use jotunheim.BootInfo.{BootInfo}
use jotunheim.Acpi.Tables.{le_at}
use jotunheim.Acpi.Madt.Entries.{
  EntriesFit, past_end, empty_entry, entry, cpus_at, ioapics_at, lapic_at, Reads, Reads-nil,
  Reads-cons,
}
use jotunheim.Acpi.Madt.{
  MadtInfo, kind_of, reach, read_entry, found, stalled, walk, madt_header_size, read_madt,
  xsdt_address, find_madt, discover,
}

walk-ne-stalled :
    (fuel : ℕ) (mem : Buffer) (base len p : ℕ) (info : MadtInfo)
    → len < fuel + p
    → 0 < fuel
    → walk fuel mem base len p info ≢ stalled
unfolding walk
walk-ne-stalled zero mem base len p info h k = absurd (omega arith)
walk-ne-stalled (suc fuel) mem base len p info h k = λ e. ground (
  arith,
  walk-ne-stalled fuel mem base len (p + mem (base + p + 1))
      (read_entry (kind_of (mem (base + p)) (mem (base + p + 1))) mem (base + p) info),
)

reach-le : (typ len : ℕ) → reach (kind_of typ len) ≤ len
reach-le typ len = ground arith

walk_past :
    (fuel : ℕ) (mem : Buffer) (base len p : ℕ) (info : MadtInfo)
    → len < p + 2
    → walk (suc fuel) mem base len p info ≡ found info
unfolding walk
walk_past fuel mem base len p info h = ground arith

walk_empty :
    (fuel : ℕ) (mem : Buffer) (base len p : ℕ) (info : MadtInfo)
    → mem (base + p + 1) ≡ 0
    → walk (suc fuel) mem base len p info ≡ found info
unfolding walk
walk_empty fuel mem base len p info h = ground arith

walk-found :
    (fuel : ℕ) (mem : Buffer) (base len p : ℕ) (ps : List ℕ) (info : MadtInfo)
    → len < fuel + p
    → 0 < fuel
    → EntriesFit mem base len p ps
    → (info' : MadtInfo) × (walk fuel mem base len p info ≡ found info')
      × Reads mem base info ps info'
unfolding walk
walk-found zero mem base len p ps info h k fits = absurd (omega arith)
walk-found (suc fuel) mem base len _ _ info h k (past_end p past) =
    (info, walk_past fuel mem base len p info past, Reads-nil mem base info)
walk-found (suc fuel) mem base len _ _ info h k (empty_entry p room none_left) =
    (info, walk_empty fuel mem base len p info none_left, Reads-nil mem base info)
walk-found (suc fuel) mem base len _ _ info h k (entry p ps room more inside rest) =
    let reached : ltb len (p + reach (kind_of (mem (base + p)) (mem (base + p + 1)))) ≡ false =
      ground (arith, reach-le (mem (base + p)) (mem (base + p + 1))) in
    let next = read_entry (kind_of (mem (base + p)) (mem (base + p + 1))) mem (base + p) info in
    let (info', e, reads) =
      walk-found fuel mem base len (p + mem (base + p + 1)) ps next (ground arith) (ground arith)
        rest in
    (info', ground (arith, e), Reads-cons mem base info info' p ps reads)

-- A table whose entries lie within it is read without a panic, up to its end or to an entry of no bytes:
-- the processors and the controllers of inputs and outputs are those that its entries name, in their
-- order, and the address of the local controllers is the one that was named last.
pub read_madt-found :
    (mem : Buffer) (base len : ℕ) (ps : List ℕ)
    → EntriesFit mem base len madt_header_size ps
    → (info : MadtInfo) × (read_madt mem base len ≡ found info)
      × (info.lapic_phys ≡ lapic_at mem base (le_at 4 mem (base + 36)) ps)
      × (info.cpus ≡ cpus_at mem base ps)
      × (info.ioapics ≡ ioapics_at mem base ps)
unfolding read_madt
read_madt-found mem base len ps fits =
    let (info, e, (phys, cpus, ioapics)) =
      walk-found (suc len) mem base len madt_header_size ps
        (record { lapic_phys = le_at 4 mem (base + 36); cpus = []; ioapics = [] }) (omega arith)
        (omega arith) fits in
    (info, e, phys, cpus, ioapics)

read_madt-ne-stalled : (mem : Buffer) (base len : ℕ) → read_madt mem base len ≢ stalled
unfolding read_madt
read_madt-ne-stalled mem base len =
    walk-ne-stalled (suc len) mem base len madt_header_size _ (omega arith) (omega arith)

-- The discovery always ends, whatever the tables hold.
pub discover-ne-stalled : (mem : Buffer) (boot : BootInfo) → discover mem boot ≢ stalled
unfolding discover
discover-ne-stalled mem boot e =
    elim (Option-cases (
      find_madt mem boot.hhdm_base (xsdt_address mem (add64 boot.hhdm_base boot.rsdp_addr))
        (le_at 4 mem (add64 boot.hhdm_base boot.rsdp_addr + 16)))) [
          | inl n ↦ ground arith
          | inr ((phys, len), h) ↦
              ground (arith, read_madt-ne-stalled mem (add64 boot.hhdm_base phys) len)
        ]
