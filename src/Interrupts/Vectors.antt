-- ===== src/Interrupts/Vectors.antt =====
-- Which handler the processor finds at a vector: the table that `init` and `ap_init` of
-- jotunheimkernel/src/arch/x86_64/tables/idt.rs build.
use jotunheim.Prelude.{
  ℕ, zero, suc, ◌+◌, ◌%◌, ◌^◌, ◌<◌, ◌≡◌, ◌≢◌, refl, ap, ◌∙◌, inl, inr, Option, none, some, List, [],
  ◌∷◌, arith, ltb, if◌then◌else◌, Option-cases,
}
use jotunheim.Prelude.Lists.{
  length, get_elem?, set, replicate, All, All-get_elem?, length-replicate, length-set,
  get_elem?-set_self, get_elem?-set_ne,
}
use jotunheim.Interrupts.{Isr, Registry, init, entries}
use jotunheim.Interrupts.Gates.{
  IdtEntry, Idt, offset_of, offset_of-gate, default_idt, empty_entry, gate, set_gate, set_defaults,
  index_or_zero, set_isr, set_isrs, build_idt,
}
use jotunheim.Interrupts.Distinct.{InTable, Absent, Distinct}

-- The table after an operation that leaves the vector `v` as it was.
abbrev Leaves : ℕ → Idt → Option Idt → Type 0
Leaves v idt o =
    (idt' : Idt) × (o ≡ some idt') × (get_elem? idt' v ≡ get_elem? idt v) × (length idt' ≡ 256)

set_isr-Leaves :
    (code v : ℕ) (isr : Isr) (idt : Idt)
    → isr.vector ≢ some v
    → InTable isr
    → length idt ≡ 256
    → Leaves v idt (set_isr code isr idt)
unfolding set_isr set_gate
set_isr-Leaves code v isr idt other inside len = elim (Option-cases isr.vector) [
  | inl bare ↦ (idt, ground (arith, bare), refl, len)
  | inr (w, at) ↦ elim (Option-cases isr.stub) [
    | inl bare ↦ (idt, ground (arith, bare, at), refl, len)
    | inr (stub, has) ↦
        let entry = gate stub (index_or_zero isr.index % 2 ^ 8) 0 code in
        (
          set idt w entry,
          ground (arith, at, has, inside w at),
          get_elem?-set_ne idt w v entry (λ e. other (at ∙ ap some e)),
          length-set idt w entry ∙ len,
        )
  ]
]

set_isrs-Leaves :
    (code v : ℕ) (es : List Isr) (idt : Idt)
    → Absent v es
    → All InTable es
    → length idt ≡ 256
    → Leaves v idt (set_isrs code es idt)
unfolding set_isrs
set_isrs-Leaves code v [] idt absent inside len = (idt, refl, refl, len)
set_isrs-Leaves code v (isr ∷ es) idt absent inside len =
    let (idt1, step, same, len1) = set_isr-Leaves code v isr idt absent.0 inside.0 len in
    let (idt2, others, same', len2) = set_isrs-Leaves code v es idt1 absent.1 inside.1 len1 in
    (idt2, rw step others, same' ∙ same, len2)

-- The gate of an entry.
abbrev pub gate_for : ℕ → Isr → ℕ → IdtEntry
gate_for code isr stub = gate stub (index_or_zero isr.index % 2 ^ 8) 0 code

set_isrs_at :
    (code v stub a : ℕ) (es : List Isr) (idt : Idt) {isr : Isr}
    → Distinct es
    → All InTable es
    → length idt ≡ 256
    → get_elem? es a ≡ some isr
    → isr.vector ≡ some v
    → isr.stub ≡ some stub
    → (idt' : Idt) × (set_isrs code es idt ≡ some idt')
      × (get_elem? idt' v ≡ some (gate_for code isr stub))
unfolding set_isrs set_isr set_gate
set_isrs_at code v stub a [] idt distinct inside len at vec has = cc
set_isrs_at code v stub zero (isr' ∷ es) idt {isr} distinct inside len at vec has =
    let same : isr' ≡ isr = cc in
    let vec' : isr'.vector ≡ some v = ap (λ (r : Isr). r.vector) same ∙ vec in
    let has' : isr'.stub ≡ some stub = ap (λ (r : Isr). r.stub) same ∙ has in
    let entry = gate_for code isr' stub in
    let small = inside.0 v vec' in
    let step : set_isr code isr' idt ≡ some (set idt v entry) = ground (arith, vec', has') in
    let (idt', others, kept, len') =
      set_isrs-Leaves code v es (set idt v entry) (distinct.0 v vec') inside.1
        (length-set idt v entry ∙ len) in
    (
      idt',
      rw step others,
      kept
          ∙ get_elem?-set_self idt v entry (omega arith)
          ∙ ap (λ (r : Isr). some (gate_for code r stub)) same,
    )
set_isrs_at code v stub (suc a) (isr' ∷ es) idt {isr} distinct inside len at vec has =
    let other : isr'.vector ≢ some v =
      λ e. All-get_elem? (λ r. r.vector ≢ some v) es a (distinct.0 v e) at vec in
    let (idt1, step, same, len1) = set_isr-Leaves code v isr' idt other inside.0 len in
    let (idt2, others, found) =
      set_isrs_at code v stub a es idt1 distinct.1 inside.1 len1 at vec has in
    (idt2, rw step others, found)

set_defaults_at :
    (rounds v w stub code : ℕ) (idt : Idt)
    → rounds + v ≡ 256
    → length idt ≡ 256
    → w < 256
    → (idt' : Idt) × (set_defaults rounds v stub code idt ≡ some idt')
      × (length idt' ≡ 256)
      × (get_elem? idt' w ≡ (if ltb w v then get_elem? idt w else some (gate stub 0 0 code)))
unfolding set_defaults set_gate
set_defaults_at zero v w stub code idt all len h = (idt, refl, len, ground arith)
set_defaults_at (suc rounds) v w stub code idt all len h =
    let entry = gate stub 0 0 code in
    let (idt', rest, len', at) =
      set_defaults_at rounds (v + 1) w stub code (set idt v entry) (omega arith)
        (length-set idt v entry ∙ len) h in
    (
      idt',
      ground (arith, rest),
      len',
      ground (arith, at, get_elem?-set_self idt v entry, get_elem?-set_ne idt v w entry),
    )

default_idt_at :
    (stub code w : ℕ)
    → w < 256
    → (idt : Idt) × (default_idt stub code ≡ some idt)
      × (length idt ≡ 256)
      × (get_elem? idt w ≡ some (gate stub 0 0 code))
unfolding default_idt
default_idt_at stub code w h =
    let (idt, built, len, at) =
      set_defaults_at 256 0 w stub code (replicate 256 empty_entry) refl
        (length-replicate 256 empty_entry) h in
    (idt, built, len, ground (arith, at))

entries-init : (t : Registry) → entries (init t) ≡ entries t
unfolding init
entries-init none = refl
entries-init (some es) = refl

module _ (default_stub code : ℕ) (t : Registry) where
  -- The descriptor table is built without a write behind it, if all vectors lie in it; then the
  -- processor finds the stub of each handler at its vector, if no two entries have the same vector.
  pub build_idt_vector :
      (a v stub : ℕ) {isr : Isr}
      → Distinct (entries t)
      → All InTable (entries t)
      → get_elem? (entries t) a ≡ some isr
      → isr.vector ≡ some v
      → isr.stub ≡ some stub
      → stub < 2 ^ 64
      → (idt : Idt) × (e : IdtEntry) × (build_idt default_stub code t ≡ some idt)
        × (get_elem? idt v ≡ some e)
        × (offset_of e ≡ stub)
  unfolding build_idt
  build_idt_vector a v stub {isr} distinct inside at vec has small =
      let (idt1, start, len, _) = default_idt_at default_stub code 0 (omega arith) in
      let (idt2, others, found) =
        set_isrs_at code v stub a (entries t) idt1 distinct inside len at vec has in
      (
        idt2,
        gate_for code isr stub,
        rw (start, entries-init t) others,
        found,
        offset_of-gate stub (index_or_zero isr.index % 2 ^ 8) 0 code small,
      )

  -- A vector without an entry has the default stub.
  pub build_idt_default :
      (v : ℕ)
      → Absent v (entries t)
      → All InTable (entries t)
      → v < 256
      → default_stub < 2 ^ 64
      → (idt : Idt) × (e : IdtEntry) × (build_idt default_stub code t ≡ some idt)
        × (get_elem? idt v ≡ some e)
        × (offset_of e ≡ default_stub)
  unfolding build_idt
  build_idt_default v absent inside h small =
      let (idt1, start, len, there) = default_idt_at default_stub code v h in
      let (idt2, others, same, _) = set_isrs-Leaves code v (entries t) idt1 absent inside len in
      (
        idt2,
        gate default_stub 0 0 code,
        rw (start, entries-init t) others,
        same ∙ there,
        offset_of-gate default_stub 0 0 code small,
      )
