-- ===== src/Acpi/Madt.antt =====
-- The discovery of the processors and interrupt controllers: `discover` of
-- jotunheimkernel/src/acpi/madt.rs, with the types of jotunheimkernel/src/acpi/mod.rs.
pub mod Entries
pub mod Walk
use jotunheim.Prelude.{
  ℕ, zero, suc, ◌+◌, ◌-◌, ◌*◌, ◌%◌, ◌≤◌, ◌<◌, ◌≡◌, ◌≢◌, refl, ap, sym, ◌∙◌, Bool, true, false, not,
  ◌&&◌, ◌||◌, Option, none, some, List, [], ◌∷◌, ◌++◌, codes, arith, ltb, leb, ◌==◌, if◌then◌else◌,
  inl, inr, Bool-cases, Option-cases,
}
use jotunheim.Prelude.Buffer.{Buffer, window}
use jotunheim.Prelude.Words.{add64}
use jotunheim.BootInfo.{BootInfo}
use jotunheim.Acpi.Tables.{le_at, checksum_ok, same_bytes, find_sdt_by_sig}

pub record CpuEntry : Type 0 where
  pub apic_id : ℕ
  pub enabled : Bool
  pub is_x2apic : Bool

pub record IoApic : Type 0 where
  pub id : ℕ
  pub mmio_base_phys : ℕ
  pub gsi_base : ℕ

pub record MadtInfo : Type 0 where
  pub lapic_phys : ℕ
  pub cpus : List CpuEntry
  pub ioapics : List IoApic

-- A flag's lowest bit.
abbrev is_odd : ℕ → Bool
is_odd flags = not (flags % 2 == 0)

-- The kinds of entry that are read, each where it is long enough.
pub data Kind : Type 0 where
  local_apic io_apic address_override local_x2apic ignored : Kind

abbrev pub kind_of : ℕ → ℕ → Kind
kind_of typ len =
    if typ == 0 && leb 8 len
    then local_apic
    else if typ == 1 && leb 12 len
    then io_apic
    else if typ == 5 && leb 12 len
    then address_override
    else if typ == 9 && leb 16 len
    then local_x2apic
    else ignored

-- How many bytes of an entry are read; a slice that goes past the end of the table is a panic.
abbrev pub reach : Kind → ℕ
reach local_apic = 8
reach io_apic = 12
reach address_override = 12
reach local_x2apic = 12
reach ignored = 0

-- `e` is where the entry begins.
unfoldable pub read_entry : Kind → Buffer → ℕ → MadtInfo → MadtInfo
read_entry local_apic mem e info = record info {
  cpus =
      info.cpus
      ++ record { apic_id = mem (e + 3); enabled = is_odd (le_at 4 mem (e + 4)); is_x2apic = false }
        ∷ [];
}
read_entry io_apic mem e info = record info {
  ioapics =
      info.ioapics
      ++ record {
        id = mem (e + 2);
        mmio_base_phys = le_at 4 mem (e + 4);
        gsi_base = le_at 4 mem (e + 8);
      }
        ∷ [];
}
read_entry address_override mem e info = record info { lapic_phys = le_at 8 mem (e + 4) }
read_entry local_x2apic mem e info = record info {
  cpus =
      info.cpus
      ++ record {
        apic_id = le_at 4 mem (e + 4);
        enabled = is_odd (le_at 4 mem (e + 8));
        is_x2apic = true;
      }
        ∷ [];
}
read_entry ignored mem e info = info

-- `stalled` is no outcome of the program: the fuel ran out.
pub data Discovery : Type 0 where
  found : MadtInfo → Discovery
  absent panicked stalled : Discovery

-- The loop over the entries of the table at `base`, which has `len` bytes, from offset `p` on.
unfoldable pub walk : ℕ → Buffer → ℕ → ℕ → ℕ → MadtInfo → Discovery
walk zero mem base len p info = stalled
walk (suc fuel) mem base len p info =
    let typ = mem (base + p) in
    let entry_len = mem (base + p + 1) in
    let kind = kind_of typ entry_len in
    let rest = walk fuel mem base len (p + entry_len) (read_entry kind mem (base + p) info) in
    if not (leb (p + 2) len)
    then found info
    else if entry_len == 0
    then found info
    else if ltb len (p + reach kind)
    then panicked
    else rest

abbrev pub madt_header_size : ℕ
madt_header_size = 44

-- The entries begin behind the header, and each has a byte at least.
unfoldable pub read_madt : Buffer → ℕ → ℕ → Discovery
read_madt mem base len =
    walk (suc len) mem base len madt_header_size
      (record { lapic_phys = le_at 4 mem (base + 36); cpus = []; ioapics = [] })

-- The address of the extended root table, zero where there is none that may be used.
unfoldable pub xsdt_address : Buffer → ℕ → ℕ
xsdt_address mem rsdp =
    let total_len = le_at 4 mem (rsdp + 20) in
    if leb 2 (mem (rsdp + 15)) && leb 36 total_len && checksum_ok mem rsdp total_len
    then le_at 8 mem (rsdp + 24)
    else 0

unfoldable pub find_madt : Buffer → ℕ → ℕ → ℕ → Option (ℕ × ℕ)
find_madt mem hhdm xsdt rsdt =
    let legacy = if not (rsdt == 0) then find_sdt_by_sig 4 mem hhdm rsdt (codes "APIC") else none in
    if not (xsdt == 0)
    then elim (find_sdt_by_sig 8 mem hhdm xsdt (codes "APIC")) [ some t ↦ some t | none ↦ legacy ]
    else legacy

unfoldable pub discover : Buffer → BootInfo → Discovery
discover mem boot =
    let rsdp = add64 boot.hhdm_base boot.rsdp_addr in
    let madt = find_madt mem boot.hhdm_base (xsdt_address mem rsdp) (le_at 4 mem (rsdp + 16)) in
    if boot.rsdp_addr == 0
    then absent
    else if not (same_bytes (window mem rsdp 8) (codes "RSD PTR ")) || not (checksum_ok mem rsdp 20)
    then absent
    else elim madt [
      | none ↦ absent
      | some (phys, len) ↦ read_madt mem (add64 boot.hhdm_base phys) len
    ]
