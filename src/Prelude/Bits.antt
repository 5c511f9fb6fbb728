-- ===== src/Prelude/Bits.antt =====
-- The bit operations on numbers as arithmetic: a mask of low ones is a remainder, fields that do not
-- meet add up, and a common shift can be taken out of a mask.
use Prim.Native.Nat.{
  ℕ, zero, suc, ◌+◌, ◌-◌, ◌*◌, ◌/◌, ◌%◌, ◌^◌, ◌≤◌, ◌<◌, min, max, bit_and, bit_or, digits, bitwise,
  bit_and-bitwise, bit_or-bitwise,
}
use mathlib.Core.Path.{◌≡◌, refl, ap}
use native.Mathlib.Nat.{pow-suc}
use native.Mathlib.Omega.{arith}

-- One more round of fuel than the number needs changes nothing.
module _ (rest : ℕ → ℕ) (op : ℕ → ℕ → ℕ) where
  enough_fuel :
      (fuel more x y : ℕ) → x ≤ fuel → x ≤ more → digits rest op fuel x y ≡ digits rest op more x y
  enough_fuel zero zero x y h k = refl
  enough_fuel zero (suc more) zero y h k = refl
  enough_fuel zero (suc more) (suc x) y h k = absurd (omega arith)
  enough_fuel (suc fuel) zero zero y h k = refl
  enough_fuel (suc fuel) zero (suc x) y h k = absurd (omega arith)
  enough_fuel (suc fuel) (suc more) zero y h k = refl
  enough_fuel (suc fuel) (suc more) (suc x) y h k =
      rw (enough_fuel fuel more (suc x / 2) (y / 2) (omega arith) (omega arith))

  lowest_digit :
      (x y : ℕ)
      → bitwise rest op (suc x) y ≡ bitwise rest op (suc x / 2) (y / 2) * 2 + op (suc x % 2) (y % 2)
  lowest_digit x y =
      omega (arith, enough_fuel x (suc x / 2) (suc x / 2) (y / 2) (omega arith) (omega arith))

pub bit_and_digit : (x y : ℕ) → bit_and x y ≡ bit_and (x / 2) (y / 2) * 2 + min (x % 2) (y % 2)
bit_and_digit zero y = simp bit_and-bitwise (omega arith)
bit_and_digit (suc x) y = simp bit_and-bitwise (lowest_digit (λ _. 0) min x y)

pub bit_or_digit : (x y : ℕ) → bit_or x y ≡ bit_or (x / 2) (y / 2) * 2 + max (x % 2) (y % 2)
bit_or_digit zero y = simp bit_or-bitwise (omega arith)
bit_or_digit (suc x) y = simp bit_or-bitwise (lowest_digit (λ z. z) max x y)

and_zero_below : (bound x : ℕ) → x ≤ bound → bit_and x 0 ≡ 0
and_zero_below bound zero h = refl
and_zero_below zero (suc x) h = absurd (omega arith)
and_zero_below (suc bound) (suc x) h =
    omega (arith, bit_and_digit (suc x) 0, and_zero_below bound (suc x / 2) (omega arith))

or_zero_below : (bound x : ℕ) → x ≤ bound → bit_or x 0 ≡ x
or_zero_below bound zero h = refl
or_zero_below zero (suc x) h = absurd (omega arith)
or_zero_below (suc bound) (suc x) h =
    omega (arith, bit_or_digit (suc x) 0, or_zero_below bound (suc x / 2) (omega arith))

pub bit_and-zero : (x : ℕ) → bit_and x 0 ≡ 0
bit_and-zero x = and_zero_below x x (omega arith)

pub bit_or-zero : (x : ℕ) → bit_or x 0 ≡ x
bit_or-zero x = or_zero_below x x (omega arith)

double_pow : (m k : ℕ) → m * 2 ^ suc k ≡ 2 * (m * 2 ^ k)
double_pow m k = omega (arith, ap (λ (t : ℕ). m * t) (pow-suc 2 k))

-- A mask that is shifted by `k` cuts off the `k` low bits.
pub bit_and-shift :
    (k q r m : ℕ) → r < 2 ^ k → bit_and (q * 2 ^ k + r) (m * 2 ^ k) ≡ bit_and q m * 2 ^ k
bit_and-shift zero q r m h = ground arith
bit_and-shift (suc k) q r m h = ground (
  arith,
  bit_and_digit (q * 2 ^ suc k + r) (m * 2 ^ suc k),
  double_pow q k,
  double_pow m k,
  double_pow (bit_and q m) k,
  bit_and-shift k q (r / 2) m (omega (arith, pow-suc 2 k)),
)

-- A mask of `k` ones keeps the `k` low bits.
pub bit_and-low : (k q r : ℕ) → r < 2 ^ k → bit_and (q * 2 ^ k + r) (2 ^ k - 1) ≡ r
bit_and-low zero q r h = ground (arith, bit_and-zero (q * 1 + r))
bit_and-low (suc k) q r h = ground (
  arith,
  bit_and_digit (q * 2 ^ suc k + r) (2 ^ suc k - 1),
  double_pow q k,
  pow-suc 2 k,
  bit_and-low k q (r / 2) (omega (arith, pow-suc 2 k)),
)

-- A field that is set above `k` bits leaves those bits alone.
pub bit_or-shift :
    (k q r m : ℕ) → r < 2 ^ k → bit_or (q * 2 ^ k + r) (m * 2 ^ k) ≡ bit_or q m * 2 ^ k + r
bit_or-shift zero q r m h = ground arith
bit_or-shift (suc k) q r m h = ground (
  arith,
  bit_or_digit (q * 2 ^ suc k + r) (m * 2 ^ suc k),
  double_pow q k,
  double_pow m k,
  double_pow (bit_or q m) k,
  bit_or-shift k q (r / 2) m (omega (arith, pow-suc 2 k)),
)

-- Fields that do not meet add up.
pub bit_or-add : (k q r : ℕ) → r < 2 ^ k → bit_or (q * 2 ^ k) r ≡ q * 2 ^ k + r
bit_or-add zero q r h = ground (arith, bit_or-zero (q * 1))
bit_or-add (suc k) q r h = ground (
  arith,
  bit_or_digit (q * 2 ^ suc k) r,
  double_pow q k,
  bit_or-add k q (r / 2) (omega (arith, pow-suc 2 k)),
)

-- A mask works on each part of a number by itself.
pub bit_and-fields :
    (k q r m s : ℕ)
    → r < 2 ^ k
    → s < 2 ^ k
    → bit_and (q * 2 ^ k + r) (m * 2 ^ k + s) ≡ bit_and q m * 2 ^ k + bit_and r s
bit_and-fields zero q r m s h g = ground (arith, ap (λ (t : ℕ). bit_and t s) zero_r, bit_and-zero 0)
  where
    zero_r : r ≡ 0
    zero_r = omega arith
bit_and-fields (suc k) q r m s h g = ground (
  arith,
  bit_and_digit (q * 2 ^ suc k + r) (m * 2 ^ suc k + s),
  bit_and_digit r s,
  double_pow q k,
  double_pow m k,
  double_pow (bit_and q m) k,
  bit_and-fields k q (r / 2) m (s / 2) (omega (arith, pow-suc 2 k)) (omega (arith, pow-suc 2 k)),
)

-- The lowest bit set.
pub bit_or-one : (x : ℕ) → bit_or x 1 ≡ x / 2 * 2 + 1
bit_or-one x = ground (arith, bit_or_digit x 1, bit_or-zero (x / 2))

-- The two lowest bits set.
pub bit_or-three : (x : ℕ) → bit_or x 3 ≡ x / 4 * 4 + 3
bit_or-three x = ground (arith, bit_or_digit x 3, bit_or-one (x / 2))
