-- ===== src/Lib.antt =====
-- Verification library of the Jotunheim kernel.
--
-- The kernel's parts that are modelled, and the files:
--
--   * the server of the GDB remote protocol, jotunheimkernel/src/debug/rsp: Rsp.antt and the files
--     below it. Rsp/Packet.antt has `send_pkt`, `send_pkt_raw` and `recv_pkt_len`, Rsp/Parse.antt
--     the parsers over `INBUF`, Rsp/Stop.antt the stop reply, Rsp/Hex.antt the digits,
--     Rsp/Registers.antt `write_g` and `read_g`, Rsp/Sections.antt the memory policy,
--     Rsp/Handlers.antt what is done with each packet, Rsp/Server.antt the loop of
--     `RspServer::run`, and `serve`, and Rsp/Server/Served.antt the packets in the bytes it reads;
--   * breakpoints, jotunheimkernel/src/debug/breakpoint.rs: Breakpoint.antt, over the bytes of
--     Machine.antt; the trap flag, jotunheimkernel/src/debug/mod.rs: Frame.antt;
--   * physical memory, jotunheimkernel/src/mem: Mem/Reserved.antt (reserved.rs), Mem/Bump.antt
--     (simple_alloc.rs), Mem/Usable.antt (the usable ranges of mod.rs), Mem/Frames.antt (`init` of
--     mod.rs and its sources of frames together), Mem/Page.antt (rounding); BootInfo.antt has what
--     the boot loader hands over. Mem/Mapping.antt has the windows of virtual memory that mod.rs
--     makes (`map_mmio`, `map_identity_4k`, `vmap_alloc_pages` and `ensure_mapped_span`),
--     Mem/Heap.antt the heap's growth and `init_heap`;
--   * the scheduler, jotunheimkernel/src/sched/mod.rs: Sched.antt, and Sched/Reaper.antt for the
--     thread that takes dead tasks out; Sched/Exec.antt has the server of early closures, exec.rs;
--   * the descriptor tables, jotunheimkernel/src/arch/x86_64/tables: Interrupts.antt has the
--     registry of handlers and of their stacks, Interrupts/Tss.antt the task state segment and the
--     segments of gdt.rs, Interrupts/Gates.antt the table of idt.rs, Interrupts/Start.antt the
--     registrations of isr and `init` of gdt.rs, in the code's order;
--   * the handlers of traps, jotunheimkernel/src/arch/x86_64/tables/isr: Traps.antt;
--   * the ACPI tables, jotunheimkernel/src/acpi: Acpi/Tables.antt has the checksum and the search
--     of the root tables, Acpi/Madt.antt `discover` and the walk over the entries, and
--     Acpi/Madt/Entries.antt what the entries list;
--   * the page tables that the boot loader builds, jotunboot/src/main.rs: Boot.antt,
--     Boot/Pages.antt (the firmware's pages and the memory of table entries), Boot/Paging.antt
--     (the `ensure_` functions, `map_4k_offset`, `map_4kib_page`), Boot/Paging/Huge.antt
--     (`map_hhdm_huge`) and Boot/Paging/Build.antt (`build_pagetables_exec`). Boot/Segments.antt
--     has the extent and the copy of the kernel's ELF segments, Boot/Handoff.antt the memory map
--     for the kernel and how far memory is identity mapped. Boot/Paging/Walk.antt has the
--     processor's walk, which the code does not contain and against which the tables are read;
--   * the vector unit, jotunheimkernel/src/arch/x86_64/simd and jotunboot/src/simd.rs: Simd.antt, and
--     Simd/Switch.antt for `save` and `restore`;
--   * the local interrupt controller, jotunheimkernel/src/arch/x86_64/apic.rs: Apic.antt.
--
-- How they interact: the boot loader enters the kernel with its page tables and its memory map,
-- which Mem/Frames/Handed.antt follows from the firmware to the frames; the debugger is entered
-- with a trap frame, serves packets, and patches the machine's bytes through the breakpoint table;
-- the allocator asks the table of reserved ranges, which it takes as a predicate; the scheduler
-- trades trap frames with the timer interrupt. The handlers of Traps.antt take the breakpoint out,
-- serve the debugger and plant the breakpoint again. The server of closures spawns threads of the
-- scheduler. The heap maps its pages by the functions of Mem/Mapping.antt.
--
-- State is a record, an operation takes it and returns it beside its result. A machine word is a
-- natural number with its wrap-around written out (Prelude/Words.antt); a buffer is a function
-- from indices (Prelude/Buffer.antt). `none` stands for a panic where the source indexes out of
-- bounds. `heapless::Vec` is of another crate: Mem/BoundedVec.antt states what is used of it as an
-- interface, and a bounded list fills it. Interfaces too, with what the code relies on, are the
-- `Deque` of heapless (Sched/Exec.antt), the frame allocator's trait and the mapper of page tables
-- (Mem/Mapping.antt, filled in Mem/Mapping/Tables.antt), the allocator of blocks (Mem/Heap.antt),
-- and `VirtAddr::align_down` and the table of segment descriptors (Interrupts/Tss.antt).
--
-- An access of the memory handlers behind the end of a static buffer is an outcome of its own,
-- `overrun`, also the read of `INBUF` that panics. A read of memory gives the machine's byte:
-- faults on unmapped addresses are not modelled.
--
-- `map_mmio` panics where `FRAME_ALLOC` is not set; the other functions of mem/mod.rs are modelled
-- behind that test. Of the addresses they map only those of `map_mmio` are tested for
-- `VirtAddr::new`: the windows of the heap and of vmap lie in the upper half. The server of
-- closures hands each closure to a thread; when the thread runs is the scheduler's.
--
-- Loops: `recv_pkt_len` and the loop of `run` run on one round per unread byte and one more, each
-- round reads a byte; `allocate_frame` on the pages of its region, each round passes one;
-- `pick_next` on the number of tasks, it goes once round the queue; `fallback_take_frame` on the
-- number of its ranges, and on the pages of each; `write_hex_u64_stream` on its sixteen entries;
-- the loops over page tables on one round more than their range has pages or chunks; `discover` on
-- one round per byte of the table and one more, each entry has a byte at least; the loops of
-- Mem/Mapping.antt on one round more than their range has pages; `server_main` empties its queue
-- in one round per slot and one more; the table of gates is filled in 256 rounds.
--
-- A write of a controller's register is an entry in a list of accesses, in order; a wait for the
-- hardware is an access too, and ends when the hardware says so.
--
-- Not modelled: other device registers, assembly, the instructions that load the descriptor
-- tables, what the other crates do inside the kernel's page tables and its heap, the start of the
-- processors, and the rest of the boot loader. The bytes of the image and the entries of the
-- tables are kept apart: the firmware hands out fresh pages. It is a parameter: an interface with
-- what the UEFI specification says of the allocation of pages. An error while the tables are built
-- drops the memory, as the boot loader halts there. `cpuid` is a parameter too. The lines that
-- handlers print are left out. A lock is taken as held: an operation on the run queue or on a
-- table is one step.
mod Prelude
pub mod Boot
pub mod Simd
pub mod Apic
pub mod BootInfo
pub mod Mem
pub mod Frame
pub mod Machine
pub mod Breakpoint
pub mod Rsp
pub mod Sched
pub mod Acpi
pub mod Interrupts
pub mod Traps
