-- ===== src/Acpi/Examples.antt =====
-- The table search at inputs that meet the theorems' hypotheses.
use jotunheim.Prelude.{
  ℕ, ◌+◌, ◌-◌, ◌*◌, ◌/◌, ◌<◌, ◌≡◌, refl, some, [], ◌∷◌, codes, arith, ◌==◌, if◌then◌else◌,
}
use jotunheim.Prelude.Buffer.{Buffer}
use jotunheim.Prelude.Words.{add64}
use jotunheim.Acpi.Tables.{
  le_at, sum_bytes, checksum_ok, SdtHeader, sdt_header_size, sdt_valid, search_pointers,
  find_sdt_by_sig, IsTable, find_sdt_by_sig-IsTable,
}
use jotunheim.Acpi.Madt.{MadtInfo, found, read_madt}
use jotunheim.Acpi.Madt.Entries.{entry, past_end, cpus_at, ioapics_at, lapic_at}
use jotunheim.Acpi.Madt.Walk.{read_madt-found}

-- A root table at 0x100 with one pointer, and the table that it points to at 0x200.
abbrev firmware : Buffer
firmware a =
    if a == 0x104
    then 44
    else if a == 0x109
    then 210
    else if a == 0x125
    then 2
    else if a == 0x200
    then b'A'
    else if a == 0x201
    then b'P'
    else if a == 0x202
    then b'I'
    else if a == 0x203
    then b'C'
    else if a == 0x204
    then 36
    else if a == 0x209
    then 191
    else 0

search_runs : find_sdt_by_sig 8 firmware 0 0x100 (codes "APIC") ≡ some (0x200, 36)
unfolding find_sdt_by_sig search_pointers sdt_valid checksum_ok sum_bytes le_at
search_runs = refl

find_sdt_by_sig-IsTable_example :
    IsTable firmware 0 (codes "APIC") 0x200 36
    × (hdr : SdtHeader) × IsTable firmware 0 hdr.sig 0x100 hdr.length
    × (k : ℕ) × (k < (hdr.length - sdt_header_size) / 8)
    × (0x200 ≡ le_at 8 firmware (add64 0 (add64 0x100 (sdt_header_size + k * 8))))
find_sdt_by_sig-IsTable_example =
    find_sdt_by_sig-IsTable 8 firmware 0 0x100 (codes "APIC") 0x200 36 search_runs

-- A table with one entry, of eight bytes.
abbrev one_cpu : Buffer
one_cpu a = if a == 45 then 8 else 0

read_madt-found_example :
    (info : MadtInfo) × (read_madt one_cpu 0 52 ≡ found info)
    × (info.lapic_phys ≡ lapic_at one_cpu 0 (le_at 4 one_cpu (0 + 36)) (44 ∷ []))
    × (info.cpus ≡ cpus_at one_cpu 0 (44 ∷ []))
    × (info.ioapics ≡ ioapics_at one_cpu 0 (44 ∷ []))
read_madt-found_example =
    read_madt-found one_cpu 0 52 (44 ∷ [])
      (entry 44 [] (omega arith) (omega arith) (omega arith) (past_end 52 (omega arith)))
