-- ===== src/Prelude/Buffer.antt =====
-- Byte stores addressed by numbers: static buffers, and memory itself.
use Prim.Native.Nat.{ℕ, zero, suc, ◌+◌, ◌≤◌, ◌<◌}
use mathlib.Core.Path.{◌≡◌, refl, ap}
use mathlib.Core.Logic.{◌⊎◌}
use mathlib.Core.List.{List, [], ◌∷◌, ◌++◌}
use native.Mathlib.Omega.{arith}
use jotunheim.Prelude.Tests.{◌==◌, if◌then◌else◌}
use jotunheim.Prelude.Lists.{length}

abbrev pub Buffer : Type 0
Buffer = ℕ → ℕ

abbrev pub poke : Buffer → ℕ → ℕ → Buffer
poke b i v j = if i == j then v else b j

-- The `n` bytes from `i` on.
abbrev pub window : Buffer → ℕ → ℕ → List ℕ
window b i zero = []
window b i (suc n) = b i ∷ window b (suc i) n

-- The bytes of a list, written one after the other from `i` on.
abbrev pub poke_all : Buffer → ℕ → List ℕ → Buffer
poke_all b i [] = b
poke_all b i (x ∷ xs) = poke_all (poke b i x) (suc i) xs

pub length-window : (b : Buffer) (i n : ℕ) → length (window b i n) ≡ n
length-window b i zero = refl
length-window b i (suc n) = ap suc (length-window b (suc i) n)

-- A write outside a window leaves the window as it was.
pub window-poke_ne :
    (b : Buffer) (j v i n : ℕ) → (j < i) ⊎ (i + n ≤ j) → window (poke b j v) i n ≡ window b i n
window-poke_ne b j v i zero h = refl
window-poke_ne b j v i (suc n) h = ground (arith, window-poke_ne b j v (suc i) n)

-- A byte written behind a window makes it longer.
pub window_snoc :
    (b : Buffer) (i n v : ℕ) → window (poke b (i + n) v) i (suc n) ≡ window b i n ++ v ∷ []
window_snoc b i zero v = ground arith
window_snoc b i (suc n) v = ground (arith, window_snoc b (suc i) n v)

pub poke_all_before : (b : Buffer) (i j : ℕ) (xs : List ℕ) → j < i → poke_all b i xs j ≡ b j
poke_all_before b i j [] h = refl
poke_all_before b i j (x ∷ xs) h = ground (arith, poke_all_before (poke b i x) (suc i) j xs)

pub poke_all_after :
    (b : Buffer) (i j : ℕ) (xs : List ℕ) → i + length xs ≤ j → poke_all b i xs j ≡ b j
poke_all_after b i j [] h = refl
poke_all_after b i j (x ∷ xs) h = ground (arith, poke_all_after (poke b i x) (suc i) j xs)

-- What was written is read back.
pub window-poke_all :
    (b : Buffer) (i : ℕ) (xs : List ℕ) → window (poke_all b i xs) i (length xs) ≡ xs
window-poke_all b i [] = refl
window-poke_all b i (x ∷ xs) =
    ground
      (arith, poke_all_before (poke b i x) (suc i) i xs, window-poke_all (poke b i x) (suc i) xs)
