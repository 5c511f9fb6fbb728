-- ===== src/Interrupts/Tss.antt =====
-- The stacks that the processor switches to: `generate_inner` of
-- jotunheimkernel/src/arch/x86_64/tables/gdt.rs. `virt` has `VirtAddr::align_down` of another crate, and
-- `gdt` its table of descriptors.
use jotunheim.Prelude.{
  ℕ, ◌+◌, ◌-◌, ◌%◌, ◌≤◌, ◌<◌, ◌≡◌, Bool, true, false, Option, none, some, List, [], ◌∷◌, ltb,
  if◌then◌else◌, ◌>>=◌,
}
use jotunheim.Prelude.Lists.{set, replicate}
use jotunheim.Interrupts.{CpuId, CpuStack, stack_size, me, Isr, Registry, init, entries}

-- What the code relies on of `VirtAddr::align_down(16)`.
pub record VirtAddr : Type 0 where
  pub align_down : ℕ → ℕ
  pub aligned : (x : ℕ) → align_down x % 16 ≡ 0
  pub below : (x : ℕ) → align_down x ≤ x
  pub near : (x : ℕ) → x < align_down x + 16

-- `TaskStateSegment`: seven stacks for interrupts and three for privilege levels.
pub record Tss : Type 0 where
  pub interrupt_stack_table : List ℕ
  pub privilege_stack_table : List ℕ

abbrev pub new_tss : Tss
new_tss = record { interrupt_stack_table = replicate 7 0; privilege_stack_table = replicate 3 0 }

abbrev pub has_handler : Isr → Bool
has_handler isr = elim isr.vector [
  | none ↦ false
  | some v ↦ elim isr.stub [ none ↦ false | some s ↦ true ]
]

module _ (virt : VirtAddr) where
  -- `top_raw(base, len)`
  unfoldable pub top_raw : ℕ → ℕ → ℕ
  top_raw base len = virt.align_down (base + len)

  abbrev pub top_of : CpuStack → ℕ
  top_of s = top_raw s.dump (stack_size - 1)

  abbrev prepend : Isr → List Isr × Tss → List Isr × Tss
  prepend isr (es, t) = (isr ∷ es, t)

  -- One entry, and the rest of the loop on what it leaves. `none` is a panic: no stack of this
  -- processor, or a table that is full.
  unfoldable pub place_entry :
      Isr
      → Option CpuStack
      → Tss
      → (i p : ℕ) → (Tss → ℕ → ℕ → Option (List Isr × Tss))
      → Option (List Isr × Tss)
  place_entry isr none t i p rest = none
  place_entry isr (some s) t i p rest =
      if has_handler isr
      then if ltb i 7
        then (rest (record t { interrupt_stack_table = set t.interrupt_stack_table i (top_of s) })
              (i + 1) p
            >>= λ r. some (prepend (record isr { index = some i }) r))
        else none
      else if ltb p 3
      then (rest (record t { privilege_stack_table = set t.privilege_stack_table p (top_of s) }) i
            (p + 1)
          >>= λ r. some (prepend isr r))
      else none

  -- The closure on the entries, with its counters.
  unfoldable pub place_stacks : CpuId → List Isr → Tss → (i p : ℕ) → Option (List Isr × Tss)
  place_stacks cpu [] t i p = some ([], t)
  place_stacks cpu (isr ∷ es) t i p = elim isr.stack [
    | none ↦ place_stacks cpu es t i p >>= λ r. some (prepend isr r)
    | some stack ↦ place_entry isr (me cpu stack) t i p (place_stacks cpu es)
  ]

  -- The entries with their indices, and the task state segment.
  unfoldable pub build_tss : CpuId → Registry → Option (List Isr × Tss)
  unfolding init
  build_tss cpu t = place_stacks cpu (entries (init t)) new_tss 0 0

-- The descriptors that are appended, and the table of another crate that takes them.
pub data Descriptor : Type 0 where
  kernel_code_segment kernel_data_segment : Descriptor
  tss_segment : Tss → Descriptor

pub record Gdt : Type 1 where
  pub Table : Type 0
  pub new : Table
  -- The table after it, and the selector.
  pub append : Table → Descriptor → Table × ℕ

pub record Selectors : Type 0 where
  pub code : ℕ
  pub data_segment : ℕ
  pub tss : ℕ

module _ (virt : VirtAddr) (gdt : Gdt) where
  open gdt use {Table, append}

  unfoldable pub generate_inner : CpuId → Table → Registry → Option (Selectors × Table × Registry)
  generate_inner cpu g t = elim (build_tss virt cpu t) [
    | none ↦ none
    | some (es, tss) ↦
        let (g1, code) = append g kernel_code_segment in
        let (g2, data_segment) = append g1 kernel_data_segment in
        let (g3, tss_selector) = append g2 (tss_segment tss) in
        some (record { code = code; data_segment = data_segment; tss = tss_selector }, g3, some es)
  ]

  -- `generate`, before the table is boxed
  unfoldable pub generate : CpuId → Registry → Option (Selectors × Table × Registry)
  generate cpu t = generate_inner cpu gdt.new t
