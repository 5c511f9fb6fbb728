-- ===== src/Interrupts/Stacks/Registered.antt =====
-- Which stacks the task state segment holds for a processor, and which one the processor takes:
-- `registrate` of jotunheimkernel/src/arch/x86_64/tables/mod.rs, then `generate_inner` of gdt.rs beside
-- it.
use mathlib.Core.Path.{subst}
use mathlib.Core.List.{map}
use jotunheim.Prelude.{
  ℕ, zero, suc, ◌+◌, ◌%◌, ◌^◌, bit_and, ◌≤◌, ◌<◌, ◌≡◌, refl, sym, ◌∙◌, inl, inr, true, Option, none,
  some, List, [], ◌∷◌, arith, Option-cases,
}
use jotunheim.Prelude.Lists.{get_elem?, All, All-get_elem?}
use jotunheim.Prelude.Bits.{bit_and-low}
use jotunheim.Interrupts.{
  CpuId, CpuStack, Stack, me, Isr, Registry, init, entries, add_stacks, registrate, fresh, me-fresh,
}
use jotunheim.Interrupts.Gates.{gate, index_or_zero}
use jotunheim.Interrupts.Tss.{VirtAddr, Tss, new_tss, has_handler, top_of, place_stacks, build_tss}
use jotunheim.Interrupts.Stacks.{
  face, handlers, privileged, numbered, Ready, Placed, place_stacks-Generated,
}

module _ (place : ℕ → ℕ) (cpu : CpuId) where
  -- After `registrate`, every entry with stacks has one of the processor.
  add_stacks-Ready : (es : List Isr) (n : ℕ) → All (Ready cpu) (add_stacks place cpu es n).0
  unfolding add_stacks
  add_stacks-Ready [] n = tt
  add_stacks-Ready (isr ∷ es) n = elim (Option-cases isr.stack) [
    | inl bare ↦
        let e : (add_stacks place cpu (isr ∷ es) n).0 ≡ isr ∷ (add_stacks place cpu es n).0 =
          ground (arith, bare) in
        subst (All (Ready cpu)) (sym e) ((λ stack f. cc), add_stacks-Ready es n)
    | inr (stack, has) ↦
        let e : (add_stacks place cpu (isr ∷ es) n).0
            ≡ record isr { stack = some (fresh place cpu n ∷ stack) }
              ∷ (add_stacks place cpu es (n + 1)).0 =
          ground (arith, has) in
        subst (All (Ready cpu)) (sym e) (
          (λ stack' f. (fresh place cpu n, ground (arith, me-fresh place cpu n stack))),
          add_stacks-Ready es (n + 1),
        )
  ]

  -- It neither adds nor drops an entry that takes a stack.
  add_stacks_counts :
      (es : List Isr) (n : ℕ)
      → (handlers (add_stacks place cpu es n).0 ≡ handlers es)
        × (privileged (add_stacks place cpu es n).0 ≡ privileged es)
  unfolding add_stacks
  add_stacks_counts [] n = (refl, refl)
  add_stacks_counts (isr ∷ es) n =
      ground (arith, add_stacks_counts es n, add_stacks_counts es (n + 1))

  -- And it leaves the gates that are made of the entries.
  numbered-add_stacks :
      (es : List Isr) (i n : ℕ)
      → map face (numbered i (add_stacks place cpu es n).0) ≡ map face (numbered i es)
  unfolding add_stacks
  numbered-add_stacks [] i n = refl
  numbered-add_stacks (isr ∷ es) i n = ground (
    arith,
    numbered-add_stacks es i n,
    numbered-add_stacks es i (n + 1),
    numbered-add_stacks es (i + 1) (n + 1),
  )

-- The stack that the processor takes for an entry of the descriptor table: 0 keeps the current one,
-- and `k` from 1 to 7 is the `k`-th of the segment.
abbrev pub stack_used : Tss → ℕ → Option ℕ
stack_used t zero = none
stack_used t (suc k) = get_elem? t.interrupt_stack_table k

index_byte : (j : ℕ) → j < 7 → bit_and (suc j % 2 ^ 8) 0x7 ≡ suc j
index_byte j h = ground (arith, bit_and-low 3 0 (suc j))

module _ (virt : VirtAddr) (place : ℕ → ℕ) (cpu : CpuId) where
  -- A processor that was registered gets its stacks: with at most seven handlers that have stacks, and
  -- three other entries that have them, the task state segment is built without a panic, each handler
  -- with stacks has an index of its own order, and the segment holds, at that index, the top of its
  -- stack for this processor. The indices do not depend on the processor.
  pub build_tss-registrate :
      (t : Registry) (n : ℕ)
      → handlers (entries t) ≤ 7
      → privileged (entries t) ≤ 3
      → (es : List Isr) × (tss : Tss) × (build_tss virt cpu (registrate place cpu t n).0
          ≡ some (es, tss))
        × All (Placed virt cpu tss) es
        × (map face es ≡ map face (numbered 0 (entries t)))
  unfolding build_tss registrate init place_stacks add_stacks
  build_tss-registrate none n few fewer = ([], new_tss, refl, tt, refl)
  build_tss-registrate (some es) n few fewer =
      let added = (add_stacks place cpu es n).0 in
      let (same, same') = add_stacks_counts place cpu es n in
      let g =
        place_stacks-Generated virt cpu added new_tss 0 0 (add_stacks-Ready place cpu es n) refl
          (omega arith) (omega arith) in
      (numbered 0 added, g.after, g.returned, g.placed, numbered-add_stacks place cpu es 0 n)

  built_Placed :
      (t : Registry) (n : ℕ) {es : List Isr} {tss : Tss}
      → handlers (entries t) ≤ 7
      → privileged (entries t) ≤ 3
      → build_tss virt cpu (registrate place cpu t n).0 ≡ some (es, tss)
      → All (Placed virt cpu tss) es
  built_Placed t n {es} {tss} few fewer built =
      let (es', tss', built', placed, _) = build_tss-registrate t n few fewer in
      let same : ◌≡◌ {A = Option (List Isr × Tss)} (some (es', tss')) (some (es, tss)) =
        sym built' ∙ built in
      let same_es : es' ≡ es = cc in
      let same_tss : tss' ≡ tss = cc in
      subst (λ (r : Tss). All (Placed virt cpu r) es) same_tss
        (subst (All (Placed virt cpu tss')) same_es placed)

  -- The index of a gate is one too low: of two handlers with successive indices below 8, which the task
  -- state segment of a registered processor gave, the processor enters the second on the stack that was
  -- made for the first. At most seven handlers and three other entries have stacks.
  pub build_tss_neighbour :
      (t : Registry) (n a b j h code : ℕ) {x y : Isr} {stack : Stack} {es : List Isr} {tss : Tss}
      → handlers (entries t) ≤ 7
      → privileged (entries t) ≤ 3
      → build_tss virt cpu (registrate place cpu t n).0 ≡ some (es, tss)
      → get_elem? es a ≡ some x
      → get_elem? es b ≡ some y
      → has_handler x ≡ true
      → x.stack ≡ some stack
      → x.index ≡ some j
      → y.index ≡ some (suc j)
      → j < 7
      → (s : CpuStack) × (me cpu stack ≡ some s)
        × (stack_used tss (gate h (index_or_zero y.index % 2 ^ 8) 0 code).ist
            ≡ some (top_of virt s))
  unfolding gate
  build_tss_neighbour t n a b j h code {x} {y} {stack} {es} {tss} few fewer built at_x at_y handler
        has first second small =
      let (k, s, at_k, found, own) =
        All-get_elem? (Placed virt cpu tss) es a (built_Placed t n few fewer built) at_x stack has
          handler in
      let k_is_j : k ≡ j = cc in
      (
        s,
        found,
        rw (second, index_byte j small)
            (subst (λ (m : ℕ). get_elem? tss.interrupt_stack_table m ≡ some (top_of virt s)) k_is_j
              own),
      )
