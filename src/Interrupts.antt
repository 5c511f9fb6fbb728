-- ===== src/Interrupts.antt =====
-- The registry of interrupt handlers and their stacks: jotunheimkernel/src/arch/x86_64/tables/mod.rs.
-- A stack is an allocation, and `place n` is where the allocator put the `n`-th; the state counts them.
-- An identity of a processor is `CpuId` of jotunheimkernel/src/acpi/cpuid.rs.
pub mod Tss
pub mod Gates
pub mod Stacks
pub mod Distinct
pub mod Vectors
pub mod Start
mod Examples
use jotunheim.Prelude.{
  ℕ, ◌+◌, ◌≡◌, refl, Bool, true, false, Option, none, some, List, [], ◌∷◌, arith, ◌==◌,
  if◌then◌else◌,
}

-- `CpuId`, by the number of its controller; `none` is `dummy`.
abbrev pub CpuId : Type 0
CpuId = Option ℕ

-- The derived `==`
abbrev pub same_cpu : CpuId → CpuId → Bool
same_cpu none none = true
same_cpu none (some b) = false
same_cpu (some a) none = false
same_cpu (some a) (some b) = a == b

abbrev pub stack_size : ℕ
stack_size = 0x20000

-- `dump` is the address of the bytes.
pub record CpuStack : Type 0 where
  pub dump : ℕ
  pub cpu : CpuId

abbrev pub Stack : Type 0
Stack = List CpuStack

-- The first stack of this processor.
unfoldable pub me : CpuId → Stack → Option CpuStack
me apic [] = none
me apic (s ∷ stacks) = if same_cpu s.cpu apic then some s else me apic stacks

pub record Isr : Type 0 where
  pub stack : Option Stack
  pub vector : Option ℕ
  pub index : Option ℕ
  pub stub : Option ℕ

-- `TABLES`
abbrev pub Registry : Type 0
Registry = Option (List Isr)

unfoldable pub init : Registry → Registry
init none = some []
init (some es) = some es

abbrev insert_first : Isr → Registry → Registry
insert_first isr none = none
insert_first isr (some es) = some (isr ∷ es)

-- `ISR::new`: a round that finds no table makes one, and the next round inserts.
unfoldable pub new : (vector stub : Option ℕ) → Option Stack → Registry → Registry
unfolding init
new vector stub stack t =
    insert_first (record { index = none; vector = vector; stack = stack; stub = stub }) (init t)

-- `ISR::registrate`
unfoldable pub register_isr : (vector stub : ℕ) → Registry → Registry
register_isr vector stub = new (some vector) (some stub) (some [])

-- `ISR::registrate_without_stack`
unfoldable pub register_without_stack : (vector stub : ℕ) → Registry → Registry
register_without_stack vector stub = new (some vector) (some stub) none

-- The entries of the table, which `access_mut` makes if there is none.
abbrev pub entries : Registry → List Isr
entries none = []
entries (some es) = es

module _ (place : ℕ → ℕ) where
  -- `CpuStack::new` at the `n`-th allocation
  abbrev pub fresh : CpuId → ℕ → CpuStack
  fresh cpu n = record { dump = place n; cpu = cpu }

  -- The closure of `registrate` on each entry: one allocation for each entry that has stacks.
  unfoldable pub add_stacks : CpuId → List Isr → ℕ → List Isr × ℕ
  add_stacks cpu [] n = ([], n)
  add_stacks cpu (isr ∷ es) n = elim isr.stack [
    | none ↦ let (es', n') = add_stacks cpu es n in (isr ∷ es', n')
    | some stack ↦
        let (es', n') = add_stacks cpu es (n + 1) in
        (record isr { stack = some (fresh cpu n ∷ stack) } ∷ es', n')
  ]

  unfoldable pub registrate : CpuId → Registry → ℕ → Registry × ℕ
  unfolding init
  registrate cpu t n = let (es, n') = add_stacks cpu (entries (init t)) n in (some es, n')

same_cpu_refl : (c : CpuId) → same_cpu c c ≡ true
same_cpu_refl none = refl
same_cpu_refl (some a) = ground arith

-- A stack that was just added is the one of its processor.
pub me-fresh :
    (place : ℕ → ℕ) (cpu : CpuId) (n : ℕ) (stack : Stack)
    → me cpu (fresh place cpu n ∷ stack) ≡ some (fresh place cpu n)
unfolding me
me-fresh place cpu n stack = rw (same_cpu_refl cpu) refl
