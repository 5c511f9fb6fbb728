-- ===== src/Interrupts/Start/Kernel.antt =====
-- The kernel's own handlers, as `isr::init` and `gdt::init` of jotunheimkernel/src/arch/x86_64/tables start
-- them.
use jotunheim.Prelude.{ℕ, ◌<◌, ◌^◌, ◌≡◌, refl, ◌∙◌, none, some, List, [], ◌∷◌, arith}
use mathlib.Core.Path.{subst}
use mathlib.Core.List.{map}
use jotunheim.Prelude.Lists.{get_elem?, All}
use jotunheim.Interrupts.{CpuId, Isr, Registry, init, new, registrate, entries}
use jotunheim.Interrupts.Tss.{
  VirtAddr, Tss, Gdt, kernel_code_segment, kernel_data_segment, tss_segment, build_tss,
  generate_inner, generate,
}
use jotunheim.Interrupts.Gates.{Idt, IdtEntry, build_idt, offset_of}
use jotunheim.Interrupts.Vectors.{build_idt_vector}
use jotunheim.Interrupts.Distinct.{InTable, Distinct, table_check-InTable, distinct_check-Distinct}
use jotunheim.Interrupts.Stacks.{face, handlers, privileged, numbered}
use jotunheim.Interrupts.Stacks.Registered.{build_tss-registrate}
use jotunheim.Interrupts.Start.{Stubs, isr_init, Started, gdt_init}
use jotunheim.Interrupts.Start.Faces.{counts-face, numbered-face, build_idt-face}

-- The kernel's own handlers: seven take a stack for interrupts, and the entry of `gdt::init` one for a
-- privilege level.
kernel_counts :
    (s : Stubs)
    → (handlers (entries (new none none (some []) (isr_init s none))) ≡ 7)
      × (privileged (entries (new none none (some []) (isr_init s none))) ≡ 1)
unfolding isr_init new init
kernel_counts s = (refl, refl)

pub kernel_isrs : Stubs → List Isr
kernel_isrs s = numbered 0 (entries (new none none (some []) (isr_init s none)))

kernel_isrs-Distinct : (s : Stubs) → Distinct (kernel_isrs s)
unfolding kernel_isrs isr_init new init
kernel_isrs-Distinct s = distinct_check-Distinct (kernel_isrs s) refl

kernel_isrs-InTable : (s : Stubs) → All InTable (kernel_isrs s)
unfolding kernel_isrs isr_init new init
kernel_isrs-InTable s = table_check-InTable (kernel_isrs s) refl

-- The vectors of the kernel's handlers, with their stubs.
abbrev pub kernel_vectors : Stubs → List (ℕ × ℕ)
kernel_vectors s =
    (0x06, s.ud)
    ∷ (0x08, s.df)
    ∷ (0x0e, s.pf)
    ∷ (0x0d, s.gp)
    ∷ (0x03, s.bp)
    ∷ (0x01, s.db)
    ∷ (0xff, s.spurious)
    ∷ (0x40, s.timer)
    ∷ []

-- The processor finds the stub at the vector.
abbrev pub Finds : Idt → ℕ × ℕ → Type 0
Finds idt (v, stub) = (e : IdtEntry) × (get_elem? idt v ≡ some e) × (offset_of e ≡ stub)

module _ (s : Stubs) (code : ℕ) where
  kernel_found :
      (idt : Idt) (a v stub : ℕ) {isr : Isr}
      → build_idt s.default_stub code (some (kernel_isrs s)) ≡ some idt
      → get_elem? (kernel_isrs s) a ≡ some isr
      → isr.vector ≡ some v
      → isr.stub ≡ some stub
      → stub < 2 ^ 64
      → Finds idt (v, stub)
  kernel_found idt a v stub built at vec has small =
      let (idt', e, built', there, off) =
        build_idt_vector s.default_stub code (some (kernel_isrs s)) a v stub
          (kernel_isrs-Distinct s) (kernel_isrs-InTable s) at vec has small in
      let same : idt' ≡ idt = cc in subst (λ (i : Idt). Finds i (v, stub)) same (e, there, off)

  kernel_idt :
      All (λ (p : ℕ × ℕ). p.1 < 2 ^ 64) (kernel_vectors s)
      → (idt : Idt) × (build_idt s.default_stub code (some (kernel_isrs s)) ≡ some idt)
        × All (Finds idt) (kernel_vectors s)
  unfolding kernel_isrs isr_init new init
  kernel_idt (ud, (df, (pf, (gp, (bp, (db, (spurious, (timer, _)))))))) =
      let (idt, e, built, there, off) =
        build_idt_vector s.default_stub code (some (kernel_isrs s)) 1 0x06 s.ud
          (kernel_isrs-Distinct s) (kernel_isrs-InTable s) refl refl refl ud in
      let at_timer = kernel_found idt 8 0x40 s.timer built refl refl refl timer in
      let at_spurious = kernel_found idt 7 0xff s.spurious built refl refl refl spurious in
      let at_db = kernel_found idt 6 0x01 s.db built refl refl refl db in
      let at_bp = kernel_found idt 5 0x03 s.bp built refl refl refl bp in
      let at_gp = kernel_found idt 4 0x0d s.gp built refl refl refl gp in
      let at_pf = kernel_found idt 3 0x0e s.pf built refl refl refl pf in
      let at_df = kernel_found idt 2 0x08 s.df built refl refl refl df in
      let at_ud = kernel_found idt 1 0x06 s.ud built refl refl refl ud in
      (
        idt,
        built,
        (at_ud, (at_df, (at_pf, (at_gp, (at_bp, (at_db, (at_spurious, (at_timer, tt)))))))),
      )

-- Entries that are the kernel's, but for their stacks.
abbrev pub IsKernels : Stubs → List Isr → Type 0
IsKernels s es = map face es ≡ map face (kernel_isrs s)

module _ (virt : VirtAddr) (place : ℕ → ℕ) (s : Stubs) where
  first_tss :
      (n : ℕ)
      → (es : List Isr) × (tss : Tss) × (build_tss virt none
            (registrate place none (new none none (some []) (isr_init s none)) n).0
          ≡ some (es, tss))
        × IsKernels s es
  unfolding kernel_isrs
  first_tss n =
      let (many, one) = kernel_counts s in
      let (es, tss, built, _, same) =
        build_tss-registrate virt place none (new none none (some []) (isr_init s none)) n
          (omega arith) (omega arith) in
      (es, tss, built, same)

  numbered_again : IsKernels s (numbered 0 (kernel_isrs s))
  unfolding kernel_isrs isr_init new init
  numbered_again = refl

  kernel_isrs_counts : (handlers (kernel_isrs s) ≡ 7) × (privileged (kernel_isrs s) ≡ 1)
  unfolding kernel_isrs isr_init new init
  kernel_isrs_counts = (refl, refl)

  next_tss :
      (cpu : CpuId) (n : ℕ) (es : List Isr)
      → IsKernels s es
      → (es' : List Isr) × (tss : Tss) × (build_tss virt cpu (registrate place cpu (some es) n).0
          ≡ some (es', tss))
        × IsKernels s es'
  next_tss cpu n es kernels =
      let (many, one) = counts-face es (kernel_isrs s) kernels in
      let (many', one') = kernel_isrs_counts in
      let (es', tss, built, _, same) =
        build_tss-registrate virt place cpu (some es) n (omega arith) (omega arith) in
      (es', tss, built, same ∙ numbered-face 0 es (kernel_isrs s) kernels ∙ numbered_again)

-- The three descriptors go one behind the other.
generate_inner_built :
    (virt : VirtAddr) (gdt : Gdt) (cpu : CpuId) (t : Registry) {es : List Isr} {tss : Tss}
    → build_tss virt cpu t ≡ some (es, tss)
    → let g1 = gdt.append gdt.new kernel_code_segment in
      let g2 = gdt.append g1.0 kernel_data_segment in
      let g3 = gdt.append g2.0 (tss_segment tss) in
      generate_inner virt gdt cpu gdt.new t
      ≡ some (record { code = g1.1; data_segment = g2.1; tss = g3.1 }, g3.0, some es)
unfolding generate_inner
generate_inner_built virt gdt cpu t built = rw (built, generate_inner) refl

module _ (virt : VirtAddr) (gdt : Gdt) (place : ℕ → ℕ) where
  -- The kernel's tables start without a panic and without a write behind a table, whichever processor
  -- is first: with the handlers that `isr::init` registers, both task state segments have room for
  -- every stack. The descriptor table that is loaded at the end leads each of their vectors to its
  -- stub; the stubs are addresses of 64 bits.
  pub gdt_init_starts :
      (s : Stubs) (first : CpuId) (n : ℕ)
      → All (λ (p : ℕ × ℕ). p.1 < 2 ^ 64) (kernel_vectors s)
      → (r : Started gdt) × (gdt_init virt gdt place s first (isr_init s none) n ≡ some r)
        × (idt : Idt) × (build_idt s.default_stub r.selectors.code r.registry ≡ some idt)
        × All (Finds idt) (kernel_vectors s)
  unfolding gdt_init generate
  gdt_init_starts s first n small =
      let (es1, tss1, built1, kernels1) = first_tss virt place s n in
      let code1 = (gdt.append gdt.new kernel_code_segment).1 in
      let (idt1, loaded1, _) = kernel_idt s code1 small in
      let t0 = new none none (some []) (isr_init s none) in
      let n1 = (registrate place none t0 n).1 in
      let (es2, tss2, built2, kernels2) = next_tss virt place s first n1 es1 kernels1 in
      let (idt2, loaded2, found) = kernel_idt s code1 small in
      let g1 = gdt.append gdt.new kernel_code_segment in
      let g2 = gdt.append g1.0 kernel_data_segment in
      let boot = gdt.append g2.0 (tss_segment tss1) in
      let last = gdt.append g2.0 (tss_segment tss2) in
      let r : Started gdt = record {
        selectors = record { code = g1.1; data_segment = g2.1; tss = last.1 };
        boot_table = boot.0;
        boot_idt = idt1;
        table = last.0;
        registry = some es2;
        allocated = (registrate place first (some es1) n1).1;
      } in
      let same1 = build_idt-face s.default_stub code1 es1 (kernel_isrs s) kernels1 ∙ loaded1 in
      (
        r,
        rw
            (
              generate_inner_built virt gdt none (registrate place none t0 n).0 built1,
              same1,
              generate_inner_built virt gdt first (registrate place first (some es1) n1).0 built2,
            )
            refl,
        idt2,
        build_idt-face s.default_stub code1 es2 (kernel_isrs s) kernels2 ∙ loaded2,
        found,
      )
