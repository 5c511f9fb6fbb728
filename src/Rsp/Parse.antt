-- ===== src/Rsp/Parse.antt =====
-- The parsers of jotunheimkernel/src/debug/rsp/core.rs: `parse_hex_usize`, `parse_addr_len` and
-- `starts_with`. The buffer is `INBUF`; `usize` has 64 bits.
pub mod Numbers
use jotunheim.Prelude.{
  ℕ, zero, suc, ◌+◌, ◌-◌, ◌*◌, ◌%◌, Bool, true, false, not, ◌&&◌, ◌||◌, Option, none, some, List,
  [], ◌∷◌, ltb, leb, ◌==◌, if◌then◌else◌, ◌>>=◌, bit_or,
}
use jotunheim.Prelude.Lists.{length}
use jotunheim.Prelude.Buffer.{Buffer}
use jotunheim.Prelude.Words.{u64_mod}
use jotunheim.Rsp.Hex.{from_hex}

-- The loop, with the bytes left before `total`: `n` is the value so far and `i` its digits.
unfoldable pub parse_loop : ℕ → Buffer → ℕ → ℕ → ℕ → ℕ × ℕ
parse_loop zero buf pos n i = (n, i)
parse_loop (suc left) buf pos n i = elim (from_hex (buf pos)) [
  | some v ↦ parse_loop left buf (suc pos) (bit_or (n * 16 % u64_mod) v) (i + 1)
  | none ↦ (n, i)
]

-- The value, and how many digits it took.
unfoldable pub parse_hex_usize : Buffer → ℕ → ℕ → Option (ℕ × ℕ)
parse_hex_usize buf off total =
    let (n, i) = parse_loop (total - off) buf off 0 0 in if i == 0 then none else some (n, i)

-- Address, length, and how many bytes the pair took.
unfoldable pub parse_addr_len : Buffer → ℕ → ℕ → Option (ℕ × ℕ × ℕ)
parse_addr_len buf off total = do
  (addr, ua) ← parse_hex_usize buf off total
  if leb total (off + ua) || not (buf (off + ua) == b',')
      then none
      else do (len, ul) ← parse_hex_usize buf (off + ua + 1) total; some (addr, len, ua + 1 + ul)

unfoldable pub matches : Buffer → ℕ → List ℕ → Bool
matches buf i [] = true
matches buf i (p ∷ ps) = buf i == p && matches buf (suc i) ps

unfoldable pub starts_with : Buffer → ℕ → ℕ → List ℕ → Bool
unfolding matches
starts_with buf off total pat =
    if ltb (total - off) (length pat) then false else matches buf off pat
