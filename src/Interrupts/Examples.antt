-- ===== src/Interrupts/Examples.antt =====
-- The theorems on interrupts at the kernel's own handlers, and a test.
use jotunheim.Prelude.{
  ℕ, ◌+◌, ◌-◌, ◌*◌, ◌%◌, ◌^◌, ◌≤◌, ◌<◌, ◌≡◌, refl, none, some, List, [], ◌∷◌, arith,
}
use mathlib.Core.List.{map}
use jotunheim.Prelude.Lists.{length, get_elem?, All}
use jotunheim.Interrupts.{CpuStack, Isr, Registry, init, new, entries, me, add_stacks, registrate}
use jotunheim.Interrupts.Tss.{
  VirtAddr, Tss, Gdt, Descriptor, build_tss, place_stacks, place_entry, top_raw, top_of,
}
use jotunheim.Interrupts.Gates.{
  Idt, IdtEntry, gate, gate_read, offset_of, dpl_of, IsInterruptGate, build_idt, index_or_zero,
}
use jotunheim.Interrupts.Stacks.{face, numbered, Placed}
use jotunheim.Interrupts.Stacks.Registered.{stack_used, build_tss-registrate, build_tss_neighbour}
use jotunheim.Interrupts.Vectors.{build_idt_vector}
use jotunheim.Interrupts.Distinct.{table_check-InTable, distinct_check-Distinct}
use jotunheim.Interrupts.Start.{Stubs, isr_init, Started, gdt_init}
use jotunheim.Interrupts.Start.Kernel.{kernel_vectors, Finds, gdt_init_starts}

round_down : ℕ → ℕ
round_down x = x - x % 16

round_down-aligned : (x : ℕ) → round_down x % 16 ≡ 0
unfolding round_down
round_down-aligned x = omega arith

round_down-le : (x : ℕ) → round_down x ≤ x
unfolding round_down
round_down-le x = omega arith

round_down-near : (x : ℕ) → x < round_down x + 16
unfolding round_down
round_down-near x = omega arith

abbrev virt : VirtAddr
virt = record {
  align_down = round_down;
  aligned = round_down-aligned;
  below = round_down-le;
  near = round_down-near;
}

-- Selectors count descriptors from the second entry on.
abbrev gdt : Gdt
gdt = record { Table = List Descriptor; new = []; append = λ g d. (d ∷ g, 8 * (length g + 1)) }

abbrev place : ℕ → ℕ
place n = 0x100000 + n * 0x20000

abbrev stubs : Stubs
stubs = record {
  default_stub = 0x1000;
  timer = 0x1010;
  spurious = 0x1020;
  db = 0x1030;
  bp = 0x1040;
  gp = 0x1050;
  pf = 0x1060;
  df = 0x1070;
  ud = 0x1080;
}

abbrev kernel : Registry
kernel = new none none (some []) (isr_init stubs none)

gdt_init_starts_example :
    (r : Started gdt) × (gdt_init virt gdt place stubs (some 0) (isr_init stubs none) 0 ≡ some r)
    × (idt : Idt) × (build_idt 0x1000 r.selectors.code r.registry ≡ some idt)
    × All (Finds idt) (kernel_vectors stubs)
gdt_init_starts_example = gdt_init_starts virt gdt place stubs (some 0) 0 (omega arith)

gate_read_example :
    (offset_of (gate 0xffff_8000_0010_2030 3 0 8) ≡ 0xffff_8000_0010_2030)
    × ((gate 0xffff_8000_0010_2030 3 0 8).selector ≡ 8)
    × ((gate 0xffff_8000_0010_2030 3 0 8).ist ≡ 3)
    × (dpl_of (gate 0xffff_8000_0010_2030 3 0 8) ≡ 0)
    × IsInterruptGate (gate 0xffff_8000_0010_2030 3 0 8)
gate_read_example = gate_read 0xffff_8000_0010_2030 3 0 8 (omega arith) (omega arith) (omega arith)

build_tss-registrate_example :
    (es : List Isr) × (tss : Tss) × (build_tss virt (some 0) (registrate place (some 0) kernel 0).0
      ≡ some (es, tss))
    × All (Placed virt (some 0) tss) es
    × (map face es ≡ map face (numbered 0 (entries kernel)))
unfolding new isr_init
build_tss-registrate_example =
    build_tss-registrate virt place (some 0) kernel 0 (omega arith) (omega arith)

build_idt_vector_example :
    (idt : Idt) × (e : IdtEntry) × (build_idt 0x1000 8 kernel ≡ some idt)
    × (get_elem? idt 0x0e ≡ some e)
    × (offset_of e ≡ 0x1060)
unfolding new isr_init
build_idt_vector_example =
    build_idt_vector 0x1000 8 kernel 3 0x0e 0x1060 (distinct_check-Distinct (entries kernel) refl)
      (table_check-InTable (entries kernel) refl) refl refl refl (omega arith)

-- The kernel's double fault has index 0 and keeps the stack that it finds; its page fault, with index 1,
-- runs on the stack of the double fault.
double_fault_stack : (gate 0x1070 (index_or_zero (some 0)) 0 8).ist ≡ 0
unfolding gate
double_fault_stack = refl

-- A double fault and a page fault, as the processor without a number registers them.
abbrev faults : Registry
faults = some (
    record { stack = some []; vector = some 0x08; index = none; stub = some 0x1070 }
    ∷ record { stack = some []; vector = some 0x0e; index = none; stub = some 0x1060 }
    ∷ [])

abbrev double_fault : Isr
double_fault = record {
  stack = some (record { dump = 0x100000; cpu = none } ∷ []);
  vector = some 0x08;
  index = some 0;
  stub = some 0x1070;
}

abbrev page_fault : Isr
page_fault = record {
  stack = some (record { dump = 0x120000; cpu = none } ∷ []);
  vector = some 0x0e;
  index = some 1;
  stub = some 0x1060;
}

abbrev faults_tss : Tss
faults_tss = record {
  interrupt_stack_table = 0x11fff0 ∷ 0x13fff0 ∷ 0 ∷ 0 ∷ 0 ∷ 0 ∷ 0 ∷ [];
  privilege_stack_table = 0 ∷ 0 ∷ 0 ∷ [];
}

faults_built :
    build_tss virt none (registrate place none faults 0).0
    ≡ some (double_fault ∷ page_fault ∷ [], faults_tss)
unfolding build_tss place_stacks place_entry top_raw registrate add_stacks me round_down init
faults_built = refl

build_tss_neighbour_example :
    (s : CpuStack) × (me none (record { dump = 0x100000; cpu = none } ∷ []) ≡ some s)
    × (stack_used faults_tss (gate 0x1060 (1 % 2 ^ 8) 0 8).ist ≡ some (top_of virt s))
build_tss_neighbour_example =
    build_tss_neighbour virt place none faults 0 0 1 0 0x1060 8 {x = double_fault} {y = page_fault}
      (omega arith) (omega arith) faults_built refl refl refl refl refl refl (omega arith)
