-- ===== src/Interrupts/Stacks.antt =====
-- Which stacks the task state segment holds: the loop of `generate_inner` of
-- jotunheimkernel/src/arch/x86_64/tables/gdt.rs.
pub mod Registered
use mathlib.Core.Path.{subst}
use mathlib.Core.List.{map}
use jotunheim.Prelude.{
  ℕ, zero, suc, ◌+◌, ◌-◌, ◌%◌, ◌^◌, bit_and, ◌≤◌, ◌<◌, ◌≡◌, refl, sym, ap, ◌∙◌, ◌⊎◌, inl, inr, Bool,
  true, false, Option, none, some, List, [], ◌∷◌, arith, ltb, if◌then◌else◌, ◌>>=◌, Bool-cases,
  Option-cases,
}
use jotunheim.Prelude.Lists.{
  length, get_elem?, set, All, All-get_elem?, length-set, get_elem?-set_self, get_elem?-set_ne,
}
use jotunheim.Prelude.Bits.{bit_and-low}
use jotunheim.Interrupts.{
  CpuId, CpuStack, Stack, me, Isr, Registry, init, entries, add_stacks, registrate, fresh, me-fresh,
}
use jotunheim.Interrupts.Gates.{gate, index_or_zero}
use jotunheim.Interrupts.Tss.{
  VirtAddr, Tss, new_tss, has_handler, top_of, place_entry, place_stacks, build_tss,
}

abbrev pub has_stack : Isr → Bool
has_stack isr = elim isr.stack [ none ↦ false | some s ↦ true ]

-- The entries that take a stack for interrupts, and those that take one for a privilege level.
abbrev pub handlers : List Isr → ℕ
handlers [] = 0
handlers (isr ∷ es) =
    if has_stack isr
    then if has_handler isr then suc (handlers es) else handlers es
    else handlers es

abbrev pub privileged : List Isr → ℕ
privileged [] = 0
privileged (isr ∷ es) =
    if has_stack isr
    then if has_handler isr then privileged es else suc (privileged es)
    else privileged es

-- Those entries numbered from `i` on, without a look at any processor.
abbrev pub numbered : ℕ → List Isr → List Isr
numbered i [] = []
numbered i (isr ∷ es) =
    if has_stack isr
    then if has_handler isr
      then record isr { index = some i } ∷ numbered (i + 1) es
      else isr ∷ numbered i es
    else isr ∷ numbered i es

-- An entry without its stacks: what `idt.rs` reads of it, and whether it has any.
abbrev pub Face : Type 0
Face = Option ℕ × Option ℕ × Option ℕ × Bool

abbrev pub face : Isr → Face
face isr = (isr.vector, isr.stub, isr.index, has_stack isr)

-- Every entry with stacks has one of this processor.
abbrev pub Ready : CpuId → Isr → Type 0
Ready cpu isr = (stack : Stack) → isr.stack ≡ some stack → (s : CpuStack) × (me cpu stack ≡ some s)

module _ (virt : VirtAddr) (cpu : CpuId) where
  -- The segment holds the top of the entry's own stack at the entry's index.
  abbrev pub Placed : Tss → Isr → Type 0
  Placed t isr =
      (stack : Stack)
      → isr.stack ≡ some stack
      → has_handler isr ≡ true
      → (k : ℕ) × (s : CpuStack) × (isr.index ≡ some k)
        × (me cpu stack ≡ some s)
        × (get_elem? t.interrupt_stack_table k ≡ some (top_of virt s))

  pub record Generated (es : List Isr) (t : Tss) (i p : ℕ) : Type 0 where
    pub after : Tss
    pub returned : place_stacks virt cpu es t i p ≡ some (numbered i es, after)
    pub kept :
        (k : ℕ)
        → k < i
        → get_elem? after.interrupt_stack_table k ≡ get_elem? t.interrupt_stack_table k
    pub placed : All (Placed after) (numbered i es)

  pub place_stacks-Generated :
      (es : List Isr) (t : Tss) (i p : ℕ)
      → All (Ready cpu) es
      → length t.interrupt_stack_table ≡ 7
      → i + handlers es ≤ 7
      → p + privileged es ≤ 3
      → Generated es t i p
  unfolding place_stacks place_entry
  place_stacks-Generated [] t i p ready len few fewer = record {
    after = t;
    returned = refl;
    kept = λ k h. refl;
    placed = tt;
  }
  place_stacks-Generated (isr ∷ es) t i p ready len few fewer = elim (Option-cases isr.stack) [
    | inl bare ↦
        let g =
          place_stacks-Generated es t i p ready.1 len (ground (arith, bare))
            (ground (arith, bare)) in
        let same : numbered i (isr ∷ es) ≡ isr ∷ numbered i es = ground (arith, bare) in
        record {
          after = g.after;
          returned = ground (arith, bare, g.returned);
          kept = g.kept;
          placed = subst (All (Placed g.after)) (sym same) ((λ stack e. cc), g.placed);
        }
    | inr (stack, has) ↦
        let (s, mine) = ready.0 stack has in
        elim (Bool-cases (has_handler isr)) [
          | inl handler ↦
              let g =
                place_stacks-Generated es
                  (record t {
                    interrupt_stack_table = set t.interrupt_stack_table i (top_of virt s);
                  })
                  (i + 1) p ready.1 (length-set t.interrupt_stack_table i (top_of virt s) ∙ len)
                  (ground (arith, has, handler)) (ground (arith, has, handler)) in
              let same : numbered i (isr ∷ es)
                  ≡ record isr { index = some i } ∷ numbered (i + 1) es =
                ground (arith, has, handler) in
              let room : i < length t.interrupt_stack_table = ground (arith, has, handler, len) in
              let own : get_elem? g.after.interrupt_stack_table i ≡ some (top_of virt s) =
                g.kept i (omega arith)
                ∙ get_elem?-set_self t.interrupt_stack_table i (top_of virt s) room in
              record {
                after = g.after;
                returned = ground (arith, has, handler, mine, g.returned);
                kept = λ k h.
                    g.kept k (omega arith)
                    ∙ get_elem?-set_ne t.interrupt_stack_table i k (top_of virt s)
                        (λ e. omega arith);
                placed =
                    subst (All (Placed g.after)) (sym same)
                      ((λ stack' e f. (i, s, refl, ground (arith, has, mine), own)), g.placed);
              }
          | inr other ↦
              let g =
                place_stacks-Generated es
                  (record t {
                    privilege_stack_table = set t.privilege_stack_table p (top_of virt s);
                  })
                  i (p + 1) ready.1 len (ground (arith, has, other)) (ground (arith, has, other)) in
              let same : numbered i (isr ∷ es) ≡ isr ∷ numbered i es = ground (arith, has, other) in
              record {
                after = g.after;
                returned = ground (arith, has, other, mine, g.returned);
                kept = g.kept;
                placed = subst (All (Placed g.after)) (sym same) ((λ stack e f. cc), g.placed);
              }
        ]
  ]
