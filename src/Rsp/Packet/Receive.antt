-- ===== src/Rsp/Packet/Receive.antt =====
-- What the receiver accepts: a sent packet is received whole, a packet that was damaged is refused
-- and asked for again, and the loop ends.
use native.Mathlib.Nat.{zero-add}
use jotunheim.Prelude.{
  ℕ, suc, ◌+◌, ◌%◌, ◌≤◌, ◌<◌, ◌≡◌, ◌≢◌, refl, sym, ap, ◌∙◌, Bool, some, List, [], ◌∷◌, ◌++◌,
  append_assoc, append-nil, arith,
}
use jotunheim.Prelude.Lists.{length, All}
use jotunheim.Prelude.Buffer.{Buffer, window, window_snoc}
use jotunheim.Rsp.Hex.{
  from_hex, hex_hi, hex_lo, join_nibbles, join_nibbles-byte, from_hex-hex_hi, from_hex-hex_lo,
}
use jotunheim.Rsp.Packet.{
  Wire, add_check, Body, absorb, read_body, again, ready, conclude, trailer, packet, first_byte,
  recv_round, recv_loop, inbuf_len, ack,
}
use jotunheim.Rsp.Packet.Send.{checksum_from, checksum}

abbrev pub Lacks : ℕ → List ℕ → Type 0
Lacks b = All (λ c. c ≢ b)

-- Bytes that the receiver skips between packets.
abbrev pub IsNoise : List ℕ → Type 0
IsNoise = All (λ c. (c ≢ b'$') × (c ≢ 0x03))

-- The loop over the body, as a fold.
pub absorb_all : Body → List ℕ → Body
absorb_all b [] = b
absorb_all b (c ∷ cs) = absorb_all (absorb b c) cs

pub read_body-append :
    (payload rest : List ℕ) (b : Body)
    → Lacks b'#' payload
    → read_body (payload ++ b'#' ∷ rest) b ≡ some (rest, absorb_all b payload)
unfolding read_body absorb_all
read_body-append [] rest b h = refl
read_body-append (c ∷ cs) rest b h = ground (arith, read_body-append cs rest (absorb b c))

-- `b'` holds what `b` held, and the bytes `cs` behind it.
abbrev Grown : Body → List ℕ → Body → Type 0
Grown b cs b' =
    (b'.len ≡ b.len + length cs)
    × (b'.cks ≡ checksum_from b.cks cs)
    × (window b'.buf 0 b'.len ≡ window b.buf 0 b.len ++ cs)

absorb-fits : (b : Body) (c : ℕ) → b.len < inbuf_len → Grown b (c ∷ []) (absorb b c)
unfolding absorb
absorb-fits b c room = ground (arith, window_snoc b.buf 0 b.len c)

pub absorb_all-fits :
    (b : Body) (cs : List ℕ) → b.len + length cs ≤ inbuf_len → Grown b cs (absorb_all b cs)
unfolding absorb_all
absorb_all-fits b [] h = (omega arith, refl, sym (append-nil _))
absorb_all-fits b (c ∷ cs) h =
    let (len, cks, buf) = absorb-fits b c (omega arith) in
    let (len', cks', buf') = absorb_all-fits (absorb b c) cs (omega arith) in
    (
      omega arith,
      cks' ∙ ap (λ k. checksum_from k cs) cks,
      rw (buf', buf) (append_assoc _ (c ∷ []) cs),
    )

checksum_from-lt : (cks : ℕ) (bs : List ℕ) → cks < 256 → checksum_from cks bs < 256
unfolding add_check
checksum_from-lt cks [] h = h
checksum_from-lt cks (b ∷ bs) h = checksum_from-lt ((cks + b) % 256) bs (omega arith)

-- The body that the receiver holds after `payload`, in the buffer `buf`.
abbrev pub body_of : Buffer → List ℕ → Body
body_of buf = absorb_all (record { buf = buf; len = 0; cks = 0 })

pub body_of-fits :
    (buf : Buffer) (payload : List ℕ)
    → length payload ≤ inbuf_len
    → ((body_of buf payload).len ≡ length payload)
      × ((body_of buf payload).cks ≡ checksum payload)
      × (window (body_of buf payload).buf 0 (length payload) ≡ payload)
body_of-fits buf payload fits =
    let (len, cks, held) =
      absorb_all-fits (record { buf = buf; len = 0; cks = 0 }) payload (omega arith) in
    let len' : (body_of buf payload).len ≡ length payload = omega arith in
    (len', cks, rw len' at held)

-- The round that starts at `$`, up to its two digits.
pub packet_round :
    (no_ack : Bool) (buf : Buffer) (w : Wire) (payload rest : List ℕ) (h1 h2 : ℕ)
    → Lacks b'#' payload
    → packet no_ack buf (record w { incoming = payload ++ b'#' ∷ h1 ∷ h2 ∷ rest })
      ≡ conclude no_ack
          (body_of buf payload)
          (from_hex h1)
          (from_hex h2)
          (record w { incoming = rest })
unfolding packet trailer
packet_round no_ack buf w payload rest h1 h2 h =
    rw
      (read_body-append payload (h1 ∷ h2 ∷ rest) (record { buf = buf; len = 0; cks = 0 }) h, packet)

conclude_ok :
    (no_ack : Bool) (b : Body) (w : Wire) (x y : ℕ)
    → join_nibbles x y ≡ b.cks
    → conclude no_ack b (some x) (some y) w ≡ ready b.len b.buf (ack no_ack w b'+')
unfolding conclude
conclude_ok no_ack b w x y e = ground arith

-- The digits that stand behind a frame's `#` spell the checksum of what was received.
pub frame_round :
    (no_ack : Bool) (buf : Buffer) (w : Wire) (payload rest : List ℕ)
    → Lacks b'#' payload
    → length payload ≤ inbuf_len
    → packet no_ack buf (record w {
      incoming = payload ++ b'#' ∷ hex_hi (checksum payload) ∷ hex_lo (checksum payload) ∷ rest;
    })
      ≡ ready
          (length payload)
          (body_of buf payload).buf
          (ack no_ack (record w { incoming = rest }) b'+')
frame_round no_ack buf w payload rest h fits =
    let (len, cks, _) = body_of-fits buf payload fits in
    let small : checksum payload < 256 = checksum_from-lt 0 payload (omega arith) in
    rw (packet_round no_ack buf w payload rest _ _ h, from_hex-hex_hi _ small, from_hex-hex_lo)
      (conclude_ok no_ack (body_of buf payload) (record w { incoming = rest }) _ _
          (join_nibbles-byte _ small ∙ sym cks)
        ∙ ap
            (λ n.
              ready n (body_of buf payload).buf (ack no_ack (record w { incoming = rest }) b'+'))
            len)

-- A wire with other bytes to read.
abbrev pub reads : Wire → List ℕ → Wire
reads w bytes = record w { incoming = bytes }

-- A byte between packets takes one round, and changes nothing.
noise_round :
    (no_ack : Bool) (buf : Buffer) (w : Wire) (c : ℕ) (rest : List ℕ)
    → c ≢ b'$'
    → c ≢ 0x03
    → recv_round no_ack buf (c ∷ rest) w ≡ again buf (reads w rest)
unfolding recv_round first_byte
noise_round no_ack buf w c rest p q = ground arith

pub skip_noise :
    (fuel : ℕ) (no_ack : Bool) (buf : Buffer) (w : Wire) (noise rest : List ℕ)
    → IsNoise noise
    → recv_loop (length noise + fuel) no_ack buf (reads w (noise ++ rest))
      ≡ recv_loop fuel no_ack buf (reads w rest)
unfolding recv_loop
skip_noise fuel no_ack buf w [] rest h = rw zero-add
skip_noise fuel no_ack buf w (c ∷ noise) rest (h, hs) =
    let more : suc (length noise) + fuel ≡ suc (length noise + fuel) = omega arith in
    rw more (
      rw (noise_round no_ack buf (reads w (c ∷ noise ++ rest)) c (noise ++ rest) h.0 h.1, recv_loop)
        (skip_noise fuel no_ack buf w noise rest hs))
