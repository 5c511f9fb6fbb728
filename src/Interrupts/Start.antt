-- ===== src/Interrupts/Start.antt =====
-- How the kernel starts its tables: `init` of jotunheimkernel/src/arch/x86_64/tables/isr/mod.rs with the
-- modules beside it, and `init` of jotunheimkernel/src/arch/x86_64/tables/gdt.rs. A stub is the address of
-- an assembly routine.
pub mod Faces
pub mod Kernel
use jotunheim.Prelude.{
  ℕ, suc, ◌+◌, ◌≤◌, ◌<◌, ◌^◌, ◌≡◌, refl, sym, ap, ◌∙◌, Bool, Option, none, some, List, [], ◌∷◌,
  arith, ◌>>=◌,
}
use mathlib.Core.Path.{fun_ext, subst}
use mathlib.Core.List.{map}
use jotunheim.Prelude.Lists.{length, get_elem?, All}
use jotunheim.Interrupts.{
  CpuId, Isr, Registry, init, new, register_isr, register_without_stack, registrate, add_stacks,
  entries,
}
use jotunheim.Interrupts.Tss.{
  VirtAddr, Tss, Gdt, kernel_code_segment, kernel_data_segment, tss_segment, Selectors, build_tss,
  generate_inner, generate,
}
use jotunheim.Interrupts.Gates.{Idt, IdtEntry, default_idt, build_idt, offset_of, set_isr, set_isrs}
use jotunheim.Interrupts.Vectors.{build_idt_vector}
use jotunheim.Interrupts.Distinct.{
  InTable, Absent, Distinct, table_check-InTable, distinct_check-Distinct,
}
use jotunheim.Interrupts.Stacks.{has_stack, Face, face, handlers, privileged, numbered, Placed}
use jotunheim.Interrupts.Stacks.Registered.{stack_used, build_tss-registrate, build_tss_neighbour}

pub record Stubs : Type 0 where
  pub default_stub : ℕ
  pub timer : ℕ
  pub spurious : ℕ
  pub db : ℕ
  pub bp : ℕ
  pub gp : ℕ
  pub pf : ℕ
  pub df : ℕ
  pub ud : ℕ

-- `timer::init`
unfoldable pub timer_init : Stubs → Registry → Registry
unfolding register_isr
timer_init s t = register_isr 0xff s.spurious (register_isr 0x40 s.timer t)

-- `debug::init`
unfoldable pub debug_init : Stubs → Registry → Registry
unfolding register_isr
debug_init s t = register_isr 0x03 s.bp (register_isr 0x01 s.db t)

-- `fault::init`
unfoldable pub fault_init : Stubs → Registry → Registry
unfolding register_isr
fault_init s t = register_isr 0x08 s.df (register_isr 0x0e s.pf (register_isr 0x0d s.gp t))

-- `misc::init`
unfoldable pub misc_init : Stubs → Registry → Registry
unfolding register_without_stack
misc_init s t = register_without_stack 0x06 s.ud t

-- `isr::init`
unfoldable pub isr_init : Stubs → Registry → Registry
unfolding timer_init debug_init fault_init misc_init
isr_init s t = misc_init s (fault_init s (debug_init s (timer_init s t)))

module _ (gdt : Gdt) where
  pub record Started : Type 0 where
    pub selectors : Selectors
    pub boot_table : gdt.Table
    pub boot_idt : Idt
    pub table : gdt.Table
    pub registry : Registry
    pub allocated : ℕ

module _ (virt : VirtAddr) (gdt : Gdt) (place : ℕ → ℕ) where
  -- `gdt::init`: the temporary table with its descriptors of interrupts, and then the one of the first
  -- processor.
  unfoldable pub gdt_init : Stubs → CpuId → Registry → ℕ → Option (Started gdt)
  gdt_init s first t n =
      let (t1, n1) = registrate place none (new none none (some []) t) n in
      generate_inner virt gdt none gdt.new t1 >>= λ (g : Selectors × gdt.Table × Registry).
      build_idt s.default_stub g.0.code g.2 >>= λ idt.
      let (t2, n2) = registrate place first g.2 n1 in
      generate virt gdt first t2 >>= λ (g' : Selectors × gdt.Table × Registry). some (record {
        selectors = g'.0;
        boot_table = g.1;
        boot_idt = idt;
        table = g'.1;
        registry = g'.2;
        allocated = n2;
      })
