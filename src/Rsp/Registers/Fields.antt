-- ===== src/Rsp/Registers/Fields.antt =====
-- The fields that `read_g` reads one after the other, from text that encodes their values.
use jotunheim.Prelude.{
  ℕ, ◌+◌, ◌*◌, ◌≤◌, ◌≡◌, refl, ap, ◌∙◌, true, some, List, [], ◌∷◌, ◌++◌, append_assoc, arith,
}
use jotunheim.Prelude.Lists.{length, length-append}
use jotunheim.Prelude.Buffer.{Buffer}
use jotunheim.Frame.{TrapFrame}
use jotunheim.Rsp.Registers.{read_le, Field, read_fields}
use jotunheim.Rsp.Registers.Bytes.{Spelled, from_le, read_le-Spelled}

-- The fields stored in turn.
abbrev pub store_all : List Field → List ℕ → TrapFrame → TrapFrame
store_all [] vs t = t
store_all (f ∷ fs) [] t = t
store_all (f ∷ fs) (v ∷ vs) t = store_all fs vs (f.store v t)

abbrev pub concat : List (List ℕ) → List ℕ
concat [] = []
concat (c ∷ cs) = c ++ concat cs

-- The chunks have the fields' widths, and encode the values.
abbrev pub Encodes : List Field → List (List ℕ) → List ℕ → Type 0
Encodes [] [] [] = Unit
Encodes (f ∷ fs) (c ∷ cs) (v ∷ vs) = (f.width ≡ length c) × (from_le c ≡ v) × Encodes fs cs vs
Encodes [] [] (v ∷ vs) = ⊥
Encodes [] (c ∷ cs) vs = ⊥
Encodes (f ∷ fs) [] vs = ⊥
Encodes (f ∷ fs) (c ∷ cs) [] = ⊥

pub read_fields-Encodes :
    (fs : List Field) (cs : List (List ℕ)) (vs rest : List ℕ) (p : Buffer) (len idx : ℕ)
    (t : TrapFrame)
    → Encodes fs cs vs
    → Spelled p idx (concat cs ++ rest)
    → idx + 2 * length (concat cs) ≤ len
    → read_fields fs p len idx t ≡ (true, store_all fs vs t)
unfolding read_fields
read_fields-Encodes [] [] [] rest p len idx t e h fits = refl
read_fields-Encodes [] [] (v ∷ vs) rest p len idx t e h fits = absurd e
read_fields-Encodes [] (c ∷ cs) vs rest p len idx t e h fits = absurd e
read_fields-Encodes (f ∷ fs) [] vs rest p len idx t e h fits = absurd e
read_fields-Encodes (f ∷ fs) (c ∷ cs) [] rest p len idx t e h fits = absurd e
read_fields-Encodes (f ∷ fs) (c ∷ cs) (v ∷ vs) rest p len idx t (wide, value, e) h fits =
    let all : length (c ++ concat cs) ≡ length c + length (concat cs) =
      length-append c (concat cs) in
    let (got, after) =
      read_le-Spelled p c (concat cs ++ rest) len idx (rw append_assoc at h) (omega arith) in
    let got' : read_le f.width p len idx ≡ some v =
      ap (λ n. read_le n p len idx) wide ∙ got ∙ ap some value in
    let next : idx + 2 * length c ≡ idx + 2 * f.width = omega (arith, wide) in
    rw (got', read_fields)
      (read_fields-Encodes fs cs vs rest p len (idx + 2 * f.width) (f.store v t) e
        (rw next at after) (omega arith))
