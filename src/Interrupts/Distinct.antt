-- ===== src/Interrupts/Distinct.antt =====
-- Registries of jotunheimkernel/src/arch/x86_64/tables/mod.rs whose vectors lie in the table and differ.
use jotunheim.Prelude.{
  ℕ, ◌<◌, ◌≡◌, ◌≢◌, Bool, true, none, some, List, [], ◌∷◌, arith, ltb, ◌==◌, not, ◌&&◌,
}
use jotunheim.Prelude.Lists.{All}
use jotunheim.Interrupts.{Isr}

-- The vector of an entry lies in the table.
abbrev pub InTable : Isr → Type 0
InTable isr = (v : ℕ) → isr.vector ≡ some v → v < 256

-- No entry has the vector.
abbrev pub Absent : ℕ → List Isr → Type 0
Absent v = All (λ isr. isr.vector ≢ some v)

-- No two entries have the same vector.
abbrev pub Distinct : List Isr → Type 0
Distinct [] = Unit
Distinct (isr ∷ es) = ((v : ℕ) → isr.vector ≡ some v → Absent v es) × Distinct es

-- Both as tests
abbrev pub table_check : List Isr → Bool
table_check [] = true
table_check (isr ∷ es) = elim isr.vector [ none ↦ true | some v ↦ ltb v 256 ] && table_check es

abbrev absent_check : ℕ → List Isr → Bool
absent_check v [] = true
absent_check v (isr ∷ es) =
    elim isr.vector [ none ↦ true | some w ↦ not (w == v) ] && absent_check v es

abbrev pub distinct_check : List Isr → Bool
distinct_check [] = true
distinct_check (isr ∷ es) =
    elim isr.vector [ none ↦ true | some v ↦ absent_check v es ] && distinct_check es

pub table_check-InTable : (es : List Isr) → table_check es ≡ true → All InTable es
table_check-InTable [] h = tt
table_check-InTable (isr ∷ es) h = ((λ v at. ground arith), table_check-InTable es (ground arith))

absent_check-Absent : (v : ℕ) (es : List Isr) → absent_check v es ≡ true → Absent v es
absent_check-Absent v [] h = tt
absent_check-Absent v (isr ∷ es) h = ((λ at. ground arith), absent_check-Absent v es (ground arith))

pub distinct_check-Distinct : (es : List Isr) → distinct_check es ≡ true → Distinct es
distinct_check-Distinct [] h = tt
distinct_check-Distinct (isr ∷ es) h =
    ((λ v at. absent_check-Absent v es (ground arith)), distinct_check-Distinct es (ground arith))
