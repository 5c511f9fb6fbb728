-- ===== src/Rsp/Hex.antt =====
-- Hexadecimal digits: `hex4` and `from_hex` of jotunheimkernel/src/debug/rsp/core.rs (arch_x86_64.rs
-- has the same two functions), and the two digits that a byte is written as.
use jotunheim.Prelude.{
  ℕ, ◌+◌, ◌-◌, ◌*◌, ◌/◌, ◌%◌, ◌<◌, ◌≡◌, Bool, ◌&&◌, Option, none, some, arith, ltb, leb,
  if◌then◌else◌, bit_and, bit_or,
}
use jotunheim.Prelude.Bits.{bit_or-add}
use jotunheim.Prelude.Words.{bit_and_nibble}

-- `u8` sums wrap.
unfoldable pub hex4 : ℕ → ℕ
hex4 n = if ltb n 10 then b'0' + n else (b'a' + (n - 10)) % 256

abbrev between : ℕ → ℕ → ℕ → Bool
between lo hi h = leb lo h && leb h hi

unfoldable pub from_hex : ℕ → Option ℕ
from_hex h =
    if between b'0' b'9' h
    then some (h - b'0')
    else if between b'a' b'f' h
    then some (10 + h - b'a')
    else if between b'A' b'F' h
    then some (10 + h - b'A')
    else none

-- `hex4((v >> 4) & 0xF)` and `hex4(v & 0xF)`
unfoldable pub hex_hi : ℕ → ℕ
hex_hi v = hex4 (bit_and (v / 16) 0xf)

unfoldable pub hex_lo : ℕ → ℕ
hex_lo v = hex4 (bit_and v 0xf)

-- `(h << 4) | l` on bytes
unfoldable pub join_nibbles : ℕ → ℕ → ℕ
join_nibbles h l = bit_or (h * 16 % 256) l

-- Every nibble is read back from its digit.
pub from_hex-hex4 : (n : ℕ) → n < 16 → from_hex (hex4 n) ≡ some n
unfolding from_hex hex4
from_hex-hex4 n h = ground arith

pub from_hex-lt : (h : ℕ) {v : ℕ} → from_hex h ≡ some v → v < 16
unfolding from_hex
from_hex-lt h e = ground arith

pub from_hex-hex_hi : (v : ℕ) → v < 256 → from_hex (hex_hi v) ≡ some (v / 16)
unfolding hex_hi
from_hex-hex_hi v h = rw bit_and_nibble (ground (arith, from_hex-hex4 (v / 16 % 16)))

pub from_hex-hex_lo : (v : ℕ) → from_hex (hex_lo v) ≡ some (v % 16)
unfolding hex_lo
from_hex-hex_lo v = rw bit_and_nibble (from_hex-hex4 (v % 16) (omega arith))

pub join_nibbles_lem : (h l : ℕ) → h < 16 → l < 16 → join_nibbles h l ≡ h * 16 + l
unfolding join_nibbles
join_nibbles_lem h l p q = ground (arith, bit_or-add 4 h l)

pub join_nibbles-byte : (v : ℕ) → v < 256 → join_nibbles (v / 16) (v % 16) ≡ v
join_nibbles-byte v h = ground (arith, join_nibbles_lem (v / 16) (v % 16))

-- A digit is none of the characters that have a meaning of their own in a packet.
pub hex4_range : (n : ℕ) → n < 16 → (b'/' < hex4 n) × (hex4 n < b'g')
unfolding hex4
hex4_range n h = ground arith
