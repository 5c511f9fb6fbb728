-- ===== src/Acpi.antt =====
-- The search for the interrupt controllers in the ACPI tables: jotunheimkernel/src/acpi. Memory is
-- its bytes; a table is named by its physical address, and read through the direct map.
pub mod Tables
pub mod Madt
mod Examples
