-- ===== src/Rsp/Packet.antt =====
-- Packets: `send_pkt`, `send_pkt_raw` and `recv_pkt_len` of jotunheimkernel/src/debug/rsp/core.rs.
-- The transport is what has not been read yet and what has been written, both oldest first; a read
-- with nothing left waits for ever, which is `blocked`.
pub mod Send
pub mod Fuel
pub mod Receive
pub mod RoundTrip
mod Examples
use jotunheim.Prelude.{
  ℕ, zero, suc, ◌+◌, ◌%◌, ◌<◌, Bool, false, true, not, ◌||◌, Option, none, some, List, [], ◌∷◌,
  ◌++◌, ltb, ◌==◌, if◌then◌else◌,
}
use jotunheim.Prelude.Lists.{length}
use jotunheim.Prelude.Buffer.{Buffer, poke}
use jotunheim.Rsp.Hex.{from_hex, hex_hi, hex_lo, join_nibbles}

abbrev pub inbuf_len : ℕ
inbuf_len = 0x2000

pub record Wire : Type 0 where
  pub incoming : List ℕ
  pub outgoing : List ℕ

unfoldable pub putc : Wire → ℕ → Wire
putc w b = record w { outgoing = w.outgoing ++ b ∷ [] }

-- `cks.wrapping_add(b)`
unfoldable pub add_check : ℕ → ℕ → ℕ
add_check cks b = (cks + b) % 256

-- `for &b in payload { tx.putc(b); cks = cks.wrapping_add(b); }`
unfoldable pub put_bytes : Wire → ℕ → List ℕ → Wire × ℕ
put_bytes w cks [] = (w, cks)
put_bytes w cks (b ∷ bs) = put_bytes (putc w b) (add_check cks b) bs

unfoldable pub put_trailer : Wire → ℕ → Wire
put_trailer w cks = putc (putc (putc w b'#') (hex_hi cks)) (hex_lo cks)

unfoldable pub send_pkt : Wire → List ℕ → Wire
send_pkt w payload = let (w', cks) = put_bytes (putc w b'$') 0 payload in put_trailer w' cks

-- `n` more bytes of the buffer, from `i` on.
unfoldable pub put_raw : Wire → ℕ → Buffer → ℕ → ℕ → Wire × ℕ
put_raw w cks buf i zero = (w, cks)
put_raw w cks buf i (suc n) = put_raw (putc w (buf i)) (add_check cks (buf i)) buf (suc i) n

unfoldable pub send_pkt_raw : Wire → Buffer → ℕ → Wire
send_pkt_raw w buf len = let (w', cks) = put_raw (putc w b'$') 0 buf 0 len in put_trailer w' cks

-- The variables of the loop over a packet's body.
pub record Body : Type 0 where
  pub buf : Buffer
  pub len : ℕ
  pub cks : ℕ

-- A byte that finds the buffer full is dropped.
unfoldable pub absorb : Body → ℕ → Body
absorb b c =
    if ltb b.len inbuf_len
    then record { buf = poke b.buf b.len c; len = b.len + 1; cks = add_check b.cks c }
    else b

-- The bytes up to `#`, which is read too; `none` waits.
unfoldable pub read_body : List ℕ → Body → Option (List ℕ × Body)
read_body [] b = none
read_body (c ∷ cs) b = elim (c == b'#') [ true ↦ some (cs, b) | false ↦ read_body cs (absorb b c) ]

-- One round of the outer loop: `continue`, `return len`, or a wait for a byte.
pub data Round : Type 0 where
  again : Buffer → Wire → Round
  ready : ℕ → Buffer → Wire → Round
  blocked : Round

abbrev pub ack : Bool → Wire → ℕ → Wire
ack no_ack w b = if no_ack then w else putc w b

unfoldable pub conclude : Bool → Body → Option ℕ → Option ℕ → Wire → Round
conclude no_ack b (some x) (some y) w =
    let ok = join_nibbles x y == b.cks in
    let w' = ack no_ack w (if ok then b'+' else b'-') in
    if ok then ready b.len b.buf w' else again b.buf w'
conclude no_ack b (some x) none w = again b.buf (ack no_ack w b'-')
conclude no_ack b none y w = again b.buf (ack no_ack w b'-')

-- The two digits behind `#`.
unfoldable pub trailer : Bool → Body → List ℕ → Wire → Round
trailer no_ack b [] w = blocked
trailer no_ack b (h1 ∷ []) w = blocked
trailer no_ack b (h1 ∷ h2 ∷ rest) w =
    conclude no_ack b (from_hex h1) (from_hex h2) (record w { incoming = rest })

unfoldable pub packet : Bool → Buffer → Wire → Round
packet no_ack buf w = elim (read_body w.incoming (record { buf = buf; len = 0; cks = 0 })) [
  | none ↦ blocked
  | some (rest, b) ↦ trailer no_ack b rest w
]

unfoldable pub first_byte : Bool → ℕ → Buffer → Wire → Round
first_byte no_ack c buf w =
    if c == b'+' || c == b'-'
    then again buf w
    else if c == 0x03
    then ready 1 (poke buf 0 0x03) w
    else if not (c == b'$')
    then again buf w
    else packet no_ack buf w

unfoldable pub recv_round : Bool → Buffer → List ℕ → Wire → Round
recv_round no_ack buf [] w = blocked
recv_round no_ack buf (c ∷ rest) w = first_byte no_ack c buf (record w { incoming = rest })

-- `stuck` is no outcome of the program: the fuel ran out.
pub data Recv : Type 0 where
  packet_of : ℕ → Buffer → Wire → Recv
  waiting : Recv
  stuck : Recv

abbrev pub after_round : (Buffer → Wire → Recv) → Round → Recv
after_round continues (again buf w) = continues buf w
after_round continues (ready len buf w) = packet_of len buf w
after_round continues blocked = waiting

unfoldable pub recv_loop : ℕ → Bool → Buffer → Wire → Recv
recv_loop zero no_ack buf w = stuck
recv_loop (suc fuel) no_ack buf w =
    after_round (recv_loop fuel no_ack) (recv_round no_ack buf w.incoming w)

-- Each round reads a byte at least.
unfoldable pub recv_pkt_len : Bool → Buffer → Wire → Recv
recv_pkt_len no_ack buf w = recv_loop (suc (length w.incoming)) no_ack buf w
