-- ===== src/Rsp/Parse/Numbers.antt =====
-- Hexadecimal numbers in a buffer: the parser reads a run of digits to its end, and gets its value.
use jotunheim.Prelude.{
  ℕ, zero, suc, ◌+◌, ◌-◌, ◌*◌, ◌%◌, ◌≤◌, ◌<◌, ◌≡◌, ◌≢◌, refl, ap, sym, ◌∙◌, Option, none, some,
  List, [], ◌∷◌, ◌++◌, arith, ◌>>=◌, bit_or, Option-cases, inl, inr,
}
use jotunheim.Prelude.Lists.{length}
use jotunheim.Prelude.Buffer.{Buffer}
use jotunheim.Prelude.Bits.{bit_or-add}
use jotunheim.Prelude.Words.{u64_mod}
use jotunheim.Rsp.Hex.{from_hex, from_hex-lt}
use jotunheim.Rsp.Parse.{parse_loop, parse_hex_usize, parse_addr_len}

-- The number that digits spell behind `n`; nothing, if one is no digit.
abbrev pub read_digits : ℕ → List ℕ → Option ℕ
read_digits n [] = some n
read_digits n (c ∷ cs) = from_hex c >>= λ v. read_digits (n * 16 + v) cs

pub read_digits-append :
    (n v : ℕ) (ds es : List ℕ)
    → read_digits n ds ≡ some v
    → read_digits n (ds ++ es) ≡ read_digits v es
read_digits-append n v [] es h = ground arith
read_digits-append n v (d ∷ ds) es h = elim (Option-cases (from_hex d)) [
  | inl e ↦ ground arith
  | inr (x, e) ↦ rw e (read_digits-append (n * 16 + x) v ds es (rw e at h))
]

le-read_digits : (n : ℕ) (ds : List ℕ) (v : ℕ) → read_digits n ds ≡ some v → n ≤ v
le-read_digits n [] v h = ground arith
le-read_digits n (d ∷ ds) v h = elim (Option-cases (from_hex d)) [
  | inl e ↦ ground arith
  | inr (x, e) ↦ omega (arith, le-read_digits (n * 16 + x) ds v (rw e at h))
]

-- `(n << 4) | v` is `16 n + v` where nothing is shifted out.
shift_in : (n v : ℕ) → v < 16 → n * 16 + v < u64_mod → bit_or (n * 16 % u64_mod) v ≡ n * 16 + v
shift_in n v p q = ground (arith, bit_or-add 4 n v)

-- The bytes stand in the buffer from `pos` on.
abbrev pub Spells : Buffer → ℕ → List ℕ → Type 0
Spells buf pos [] = Unit
Spells buf pos (c ∷ cs) = (buf pos ≡ c) × Spells buf (suc pos) cs

-- The parser stops at `pos`: the text ends there, or no digit follows.
abbrev pub Stops : Buffer → ℕ → ℕ → Type 0
Stops buf pos total = pos < total → from_hex (buf pos) ≡ none

parse_loop_stop :
    (buf : Buffer) (pos left n i : ℕ)
    → (0 < left → from_hex (buf pos) ≡ none)
    → parse_loop left buf pos n i ≡ (n, i)
unfolding parse_loop
parse_loop_stop buf pos zero n i h = refl
parse_loop_stop buf pos (suc left) n i h = rw (h (omega arith), parse_loop)

parse_loop_digit :
    (buf : Buffer) (pos left n i x : ℕ)
    → from_hex (buf pos) ≡ some x
    → n * 16 + x < u64_mod
    → parse_loop (suc left) buf pos n i ≡ parse_loop left buf (suc pos) (n * 16 + x) (i + 1)
unfolding parse_loop
parse_loop_digit buf pos left n i x e small =
    rw (e, parse_loop, shift_in n x (from_hex-lt _ e) small)

parse_loop-digits :
    (ds : List ℕ) (buf : Buffer) (pos left total n i v : ℕ)
    → Spells buf pos ds
    → pos + left ≡ total
    → length ds ≤ left
    → Stops buf (pos + length ds) total
    → read_digits n ds ≡ some v
    → v < u64_mod
    → parse_loop left buf pos n i ≡ (v, i + length ds)
parse_loop-digits [] buf pos left total n i v at to fits end h small =
    let here : pos + 0 ≡ pos = omega arith in
    parse_loop_stop buf pos left n i
      (λ k. ap (λ (p : ℕ). from_hex (buf p)) (sym here) ∙ end (omega arith))
    ∙ ground arith
parse_loop-digits (d ∷ ds) buf pos zero total n i v at to fits end h small = absurd (omega arith)
parse_loop-digits (d ∷ ds) buf pos (suc left) total n i v at to fits end h small =
    elim (Option-cases (from_hex d)) [
      | inl e ↦ ground arith
      | inr (x, e) ↦
          let rest : read_digits (n * 16 + x) ds ≡ some v = rw e at h in
          let next : suc pos + length ds ≡ pos + suc (length ds) = omega arith in
          parse_loop_digit buf pos left n i x (rw at.0 e)
            (omega (arith, le-read_digits (n * 16 + x) ds v rest))
          ∙ parse_loop-digits ds buf (suc pos) left total (n * 16 + x) (i + 1) v at.1 (omega arith)
              (omega arith) (rw next end) rest small
          ∙ ground arith
    ]

-- A run of digits in the buffer, one at least, that ends before `total` or is followed there by
-- another character, is parsed whole: the result is its value, if that fits 64 bits, and its length.
pub parse_hex_usize-digits :
    (ds : List ℕ) (buf : Buffer) (off total v : ℕ)
    → ds ≢ []
    → Spells buf off ds
    → off + length ds ≤ total
    → Stops buf (off + length ds) total
    → read_digits 0 ds ≡ some v
    → v < u64_mod
    → parse_hex_usize buf off total ≡ some (v, length ds)
unfolding parse_hex_usize
parse_hex_usize-digits [] buf off total v nonempty at fits end h small = absurd (nonempty refl)
parse_hex_usize-digits (d ∷ ds) buf off total v nonempty at fits end h small = ground (
  arith,
  parse_loop-digits (d ∷ ds) buf off (total - off) total 0 0 v at (omega arith) (omega arith) end h
      small,
)

-- An `addr,len` pair is parsed to its two numbers.
pub parse_addr_len-digits :
    (addrs lens : List ℕ) (buf : Buffer) (off total addr len : ℕ)
    → addrs ≢ []
    → lens ≢ []
    → Spells buf off addrs
    → buf (off + length addrs) ≡ b','
    → Spells buf (off + length addrs + 1) lens
    → off + length addrs + 1 + length lens ≤ total
    → Stops buf (off + length addrs + 1 + length lens) total
    → read_digits 0 addrs ≡ some addr
    → read_digits 0 lens ≡ some len
    → addr < u64_mod
    → len < u64_mod
    → parse_addr_len buf off total ≡ some (addr, len, length addrs + 1 + length lens)
unfolding parse_addr_len
parse_addr_len-digits addrs lens buf off total addr len ne ne' at comma at' fits end h h' small
      small' =
    ground (
      arith,
      parse_hex_usize-digits addrs buf off total addr ne at (omega arith)
          (λ _. rw comma (unfold from_hex in refl)) h small,
      parse_hex_usize-digits lens buf (off + length addrs + 1) total len ne' at' fits end h' small',
    )
