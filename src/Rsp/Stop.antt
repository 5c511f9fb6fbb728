-- ===== src/Rsp/Stop.antt =====
-- The stop reply: `write_hex_u64_stream` and `send_t_stop` of jotunheimkernel/src/debug/rsp/core.rs.
pub mod Reply
use jotunheim.Prelude.{
  ℕ, zero, suc, ◌/◌, Option, none, some, List, [], ◌∷◌, codes, ◌==◌, if◌then◌else◌, ◌>>=◌, bit_and,
}
use jotunheim.Rsp.Hex.{hex4, hex_hi, hex_lo}
use jotunheim.Rsp.Packet.{Wire, putc, add_check, put_bytes, put_trailer}

-- `while v != 0 { tmp[n] = hex4(v & 0xF); n += 1; v >>= 4; }`, the newest digit first; `room` counts
-- the free entries of `tmp`, and a write behind them is a panic, `none`.
unfoldable pub collect_nibbles : ℕ → ℕ → List ℕ → Option (List ℕ)
collect_nibbles zero v tmp = if v == 0 then some tmp else none
collect_nibbles (suc room) v tmp =
    let rest = collect_nibbles room (v / 16) (hex4 (bit_and v 0xf) ∷ tmp) in
    if v == 0 then some tmp else rest

-- The digits are written from the newest on.
unfoldable pub write_hex_u64_stream : Wire → ℕ → ℕ → Option (Wire × ℕ)
write_hex_u64_stream w cks v =
    if v == 0
    then some (putc w b'0', add_check cks b'0')
    else (collect_nibbles 16 v [] >>= λ digits. some (put_bytes w cks digits))

unfoldable pub send_t_stop : Wire → ℕ → ℕ → ℕ → Option Wire
send_t_stop w sig tid pc =
    let (w₁, cks₁) = put_bytes (putc w b'$') 0 (b'T' ∷ hex_hi sig ∷ hex_lo sig ∷ []) in
    let (w₂, cks₂) = put_bytes w₁ cks₁ (codes ";thread:") in
    write_hex_u64_stream w₂ cks₂ tid >>= λ r₃.
    let (w₄, cks₄) = put_bytes r₃.0 r₃.1 (codes ";pc:") in
    write_hex_u64_stream w₄ cks₄ pc >>= λ r₅.
    let (w₆, cks₆) = put_bytes r₅.0 r₅.1 (b';' ∷ []) in some (put_trailer w₆ cks₆)
