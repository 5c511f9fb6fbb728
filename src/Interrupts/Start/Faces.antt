-- ===== src/Interrupts/Start/Faces.antt =====
-- What the tables of jotunheimkernel/src/arch/x86_64/tables read of the registry does not depend on the
-- stacks themselves: only on each entry's face.
use jotunheim.Prelude.{ℕ, ◌+◌, ◌≡◌, refl, ap, ◌∙◌, Option, some, List, [], ◌∷◌, arith, ◌>>=◌}
use mathlib.Core.Path.{fun_ext}
use mathlib.Core.List.{map}
use jotunheim.Interrupts.{Isr, init}
use jotunheim.Interrupts.Gates.{Idt, default_idt, build_idt, set_isr, set_isrs}
use jotunheim.Interrupts.Stacks.{has_stack, Face, face, handlers, privileged, numbered}

-- Only the gates of the entries count.
pub set_isrs-face :
    (code : ℕ) (es es' : List Isr) (idt : Idt)
    → map face es ≡ map face es'
    → set_isrs code es idt ≡ set_isrs code es' idt
unfolding set_isrs set_isr
set_isrs-face code [] [] idt same = refl
set_isrs-face code [] (isr' ∷ es') idt same = cc
set_isrs-face code (isr ∷ es) [] idt same = cc
set_isrs-face code (isr ∷ es) (isr' ∷ es') idt same =
    let vector : isr.vector ≡ isr'.vector = cc in
    let stub : isr.stub ≡ isr'.stub = cc in
    let index : isr.index ≡ isr'.index = cc in
    let others : map face es ≡ map face es' = cc in
    let first : set_isr code isr idt ≡ set_isr code isr' idt =
      ground (arith, vector, stub, index) in
    ap (λ (o : Option Idt). o >>= set_isrs code es) first
    ∙ ap (λ (f : Idt → Option Idt). set_isr code isr' idt >>= f)
        (fun_ext (λ x. set_isrs-face code es es' x others))

-- Numbering and counting go by the same.
pub counts-face :
    (es es' : List Isr)
    → map face es ≡ map face es'
    → (handlers es ≡ handlers es') × (privileged es ≡ privileged es')
counts-face [] [] same = (refl, refl)
counts-face [] (isr' ∷ es') same = cc
counts-face (isr ∷ es) [] same = cc
counts-face (isr ∷ es) (isr' ∷ es') same =
    let first : ◌≡◌ {A = Face} (face isr) (face isr') = cc in
    let others : map face es ≡ map face es' = cc in
    let vector : isr.vector ≡ isr'.vector = ap (λ (f : Face). f.0) first in
    let stub : isr.stub ≡ isr'.stub = ap (λ (f : Face). f.1) first in
    let stacks : has_stack isr ≡ has_stack isr' = ap (λ (f : Face). f.3) first in
    ground (arith, counts-face es es' others, vector, stub, stacks)

pub numbered-face :
    (i : ℕ) (es es' : List Isr)
    → map face es ≡ map face es'
    → map face (numbered i es) ≡ map face (numbered i es')
numbered-face i [] [] same = refl
numbered-face i [] (isr' ∷ es') same = cc
numbered-face i (isr ∷ es) [] same = cc
numbered-face i (isr ∷ es) (isr' ∷ es') same =
    let first : ◌≡◌ {A = Face} (face isr) (face isr') = cc in
    let others : map face es ≡ map face es' = cc in
    let vector : isr.vector ≡ isr'.vector = ap (λ (f : Face). f.0) first in
    let stub : isr.stub ≡ isr'.stub = ap (λ (f : Face). f.1) first in
    let index : isr.index ≡ isr'.index = ap (λ (f : Face). f.2) first in
    let stacks : has_stack isr ≡ has_stack isr' = ap (λ (f : Face). f.3) first in
    ground (
      arith,
      numbered-face i es es' others,
      numbered-face (i + 1) es es' others,
      vector,
      stub,
      index,
      stacks,
    )

pub build_idt-face :
    (default_stub code : ℕ) (es es' : List Isr)
    → map face es ≡ map face es'
    → build_idt default_stub code (some es) ≡ build_idt default_stub code (some es')
unfolding build_idt init
build_idt-face default_stub code es es' same =
    ap (λ (f : Idt → Option Idt). default_idt default_stub code >>= f)
      (fun_ext (λ x. set_isrs-face code es es' x same))
