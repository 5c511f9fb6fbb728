-- ===== src/Prelude/Outcome.antt =====
-- How a run of fallible code ends, as a `Result<_, ()>` or a panic, and the rules for a run that keeps a
-- promise. `failed` says what an error means.
use mathlib.Core.Path.{◌≡◌, refl}
use mathlib.Core.Bool.{Bool, true, false}
use native.Mathlib.Omega.{arith}
use jotunheim.Prelude.Tests.{if◌then◌else◌}

pub data Outcome {ℓ} (A : Type ℓ) : Type ℓ where
  ok : A → Outcome A
  err out_of_fuel : Outcome A

infixl 5 ◌>>=◌
abbrev pub ◌>>=◌ {ℓ κ} : {A : Type ℓ} {B : Type κ} → Outcome A → (A → Outcome B) → Outcome B
ok a >>= f = f a
err >>= f = err
out_of_fuel >>= f = out_of_fuel

-- The run gives a value that satisfies `P`, or an error with its reason `F`; it is not out of fuel.
pub data Meets {ℓ κ ι} {A : Type ℓ} (F : Type ι) (P : A → Type κ)
    : Outcome A → Type (ℓ ⊔ κ ⊔ ι) where
  meets : {a : A} → P a → Meets F P (ok a)
  failed : F → Meets F P err

module _ {ℓ κ ι} {A : Type ℓ} {F : Type ι} {P : A → Type κ} where
  pub Meets-bind {ℓ' κ'} :
      {B : Type ℓ'} {Q : B → Type κ'} {r : Outcome A} {f : A → Outcome B}
      → Meets F P r
      → ((a : A) → P a → Meets F Q (f a))
      → Meets F Q (r >>= f)
  Meets-bind (meets p) k = k _ p
  Meets-bind (failed e) k = failed e

  pub Meets-map {κ'} :
      {Q : A → Type κ'} {r : Outcome A} → Meets F P r → ((a : A) → P a → Q a) → Meets F Q r
  Meets-map (meets p) k = meets (k _ p)
  Meets-map (failed e) k = failed e

  pub Meets-if :
      {x y : Outcome A} (b : Bool)
      → (b ≡ true → Meets F P x)
      → (b ≡ false → Meets F P y)
      → Meets F P (if b then x else y)
  Meets-if true p q = p refl
  Meets-if false p q = q refl

  -- What a run that ended well has kept.
  pub Meets-ok : {r : Outcome A} {a : A} → Meets F P r → r ≡ ok a → P a
  Meets-ok (meets p) e = ground (arith, p)
  Meets-ok (failed f) e = cc
