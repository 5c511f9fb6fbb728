-- ===== src/Rsp/Registers/Bytes.antt =====
-- The text of bytes in a buffer: what the `put` functions write is what `read_le` reads.
use native.Mathlib.Nat.{pow-suc}
use jotunheim.Prelude.{
  ℕ, zero, suc, ◌+◌, ◌*◌, ◌/◌, ◌%◌, ◌^◌, ◌≤◌, ◌<◌, ◌≡◌, refl, ap, ◌∙◌, some, List, [], ◌∷◌, ◌++◌,
  true, arith, ltb,
}
use jotunheim.Prelude.Lists.{length, All}
use jotunheim.Prelude.Buffer.{Buffer}
use jotunheim.Rsp.Hex.{from_hex, from_hex-hex_hi, from_hex-hex_lo, join_nibbles-byte}
use jotunheim.Rsp.Registers.{Cursor, put8, put_all, to_le_bytes, put_words, put_zeros, read_le}

-- The two digits of each byte stand in the buffer, from `idx` on.
abbrev pub Spelled : Buffer → ℕ → List ℕ → Type 0
Spelled p idx [] = Unit
Spelled p idx (b ∷ bs) =
    (b < 256)
    × (from_hex (p idx) ≡ some (b / 16))
    × (from_hex (p (idx + 1)) ≡ some (b % 16))
    × Spelled p (idx + 2) bs

put_all_before : (c : Cursor) (bs : List ℕ) (j : ℕ) → j < c.at → (put_all c bs).buf j ≡ c.buf j
unfolding put_all put8
put_all_before c [] j h = refl
put_all_before c (b ∷ bs) j h = put_all_before (put8 c b) bs j (omega arith) ∙ ground arith

pub put_all-Spelled :
    (c : Cursor) (bs : List ℕ) → All (λ b. b < 256) bs → Spelled (put_all c bs).buf c.at bs
unfolding put_all put8
put_all-Spelled c [] h = tt
put_all-Spelled c (b ∷ bs) h = (
  h.0,
  ap from_hex (put_all_before (put8 c b) bs c.at (omega arith) ∙ ground arith)
      ∙ from_hex-hex_hi b h.0,
  ap from_hex (put_all_before (put8 c b) bs (c.at + 1) (omega arith) ∙ ground arith)
      ∙ from_hex-hex_lo b,
  put_all-Spelled (put8 c b) bs h.1,
)

pub at-put_all : (c : Cursor) (bs : List ℕ) → (put_all c bs).at ≡ c.at + 2 * length bs
unfolding put_all put8
at-put_all c [] = omega arith
at-put_all c (b ∷ bs) = at-put_all (put8 c b) bs ∙ omega arith

pub put_all-append :
    (c : Cursor) (bs cs : List ℕ) → put_all (put_all c bs) cs ≡ put_all c (bs ++ cs)
unfolding put_all
put_all-append c [] cs = refl
put_all-append c (b ∷ bs) cs = put_all-append (put8 c b) bs cs

abbrev pub words : ℕ → List ℕ → List ℕ
words n [] = []
words n (v ∷ vs) = to_le_bytes n v ++ words n vs

pub put_words-words : (n : ℕ) (c : Cursor) (vs : List ℕ) → put_words n c vs ≡ put_all c (words n vs)
unfolding put_words put_all
put_words-words n c [] = refl
put_words-words n c (v ∷ vs) =
    put_words-words n (put_all c (to_le_bytes n v)) vs
    ∙ put_all-append c (to_le_bytes n v) (words n vs)

abbrev pub zeros : List ℕ → List ℕ
zeros [] = []
zeros (n ∷ ns) = to_le_bytes n 0 ++ zeros ns

pub put_zeros-zeros : (c : Cursor) (ns : List ℕ) → put_zeros c ns ≡ put_all c (zeros ns)
unfolding put_zeros put_all
put_zeros-zeros c [] = refl
put_zeros-zeros c (n ∷ ns) =
    put_zeros-zeros (put_all c (to_le_bytes n 0)) ns ∙ put_all-append c (to_le_bytes n 0) (zeros ns)

-- `from_le_bytes`
abbrev pub from_le : List ℕ → ℕ
from_le [] = 0
from_le (b ∷ bs) = b + 256 * from_le bs

pub from_le-to_le_bytes : (n v : ℕ) → v < 256 ^ n → from_le (to_le_bytes n v) ≡ v
unfolding to_le_bytes
from_le-to_le_bytes zero v h = omega arith
from_le-to_le_bytes (suc n) v h =
    omega (arith, pow-suc 256 n, from_le-to_le_bytes n (v / 256) (omega (arith, pow-suc 256 n)))

pub read_le-Spelled :
    (p : Buffer) (bs rest : List ℕ) (len idx : ℕ)
    → Spelled p idx (bs ++ rest)
    → idx + 2 * length bs ≤ len
    → (read_le (length bs) p len idx ≡ some (from_le bs)) × Spelled p (idx + 2 * length bs) rest
unfolding read_le
read_le-Spelled p [] rest len idx h fits =
    (refl, let e : idx ≡ idx + 2 * 0 = omega arith in rw e at h)
read_le-Spelled p (b ∷ bs) rest len idx (small, hi, lo, h) fits =
    let (value, after) = read_le-Spelled p bs rest len (idx + 2) h (omega arith) in
    let e : idx + 2 + 2 * length bs ≡ idx + 2 * suc (length bs) = omega arith in
    let first : ltb idx len ≡ true = ground arith in
    let second : ltb (idx + 1) len ≡ true = ground arith in
    (rw (first, second, hi, lo, value, join_nibbles-byte b small) refl, rw e at after)
