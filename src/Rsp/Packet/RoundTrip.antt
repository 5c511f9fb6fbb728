-- ===== src/Rsp/Packet/RoundTrip.antt =====
-- Sending and receiving: what `send_pkt` writes is what `recv_pkt_len` returns, and a packet whose
-- digits do not spell its checksum is refused.
use jotunheim.Prelude.{
  ℕ, suc, ◌+◌, ◌≤◌, ◌≡◌, ◌≢◌, refl, ◌∙◌, ap, Bool, Option, none, some, List, ◌∷◌, ◌++◌,
  append_assoc, arith,
}
use jotunheim.Prelude.Lists.{length, length-append}
use jotunheim.Prelude.Buffer.{Buffer, window}
use jotunheim.Rsp.Hex.{from_hex, hex_hi, hex_lo, join_nibbles}
use jotunheim.Rsp.Packet.{
  Wire, putc, Body, again, conclude, packet, first_byte, recv_round, packet_of, recv_loop,
  recv_pkt_len, inbuf_len, ack,
}
use jotunheim.Rsp.Packet.Send.{checksum, frame}
use jotunheim.Rsp.Packet.Receive.{
  Lacks, IsNoise, reads, body_of, body_of-fits, skip_noise, frame_round, packet_round,
}
use jotunheim.Rsp.Packet.Fuel.{recv_loop-agree, recv_loop_again, recv_loop-recv_pkt_len}

-- A round that begins at `$`, behind noise.
at_dollar :
    (no_ack : Bool) (buf : Buffer) (w : Wire) (noise tail : List ℕ)
    → IsNoise noise
    → recv_pkt_len no_ack buf (reads w (noise ++ b'$' ∷ tail))
      ≡ recv_loop (suc (suc (length tail))) no_ack buf (reads w (b'$' ∷ tail))
unfolding recv_pkt_len
at_dollar no_ack buf w noise tail h =
    recv_loop-agree _ (length noise + suc (suc (length tail))) no_ack buf _ (omega arith)
      (omega (arith, length-append noise (b'$' ∷ tail)))
    ∙ skip_noise _ no_ack buf w noise (b'$' ∷ tail) h

dollar_round :
    (no_ack : Bool) (buf : Buffer) (w : Wire) (tail : List ℕ)
    → recv_round no_ack buf (b'$' ∷ tail) w ≡ packet no_ack buf (reads w tail)
unfolding recv_round first_byte
dollar_round no_ack buf w tail = refl

frame-append :
    (payload rest : List ℕ)
    → frame payload ++ rest
      ≡ b'$' ∷ (payload ++ b'#' ∷ hex_hi (checksum payload) ∷ hex_lo (checksum payload) ∷ rest)
frame-append payload rest = ap (λ t. b'$' ∷ t) (append_assoc payload _ rest)

-- A sent packet is received whole behind any noise, if it holds no `#` and fits the buffer: its bytes
-- stand at the front of the buffer, nothing behind it is read, and it is acknowledged unless the
-- session runs without acknowledgements.
pub recv_pkt_len-frame :
    (no_ack : Bool) (buf : Buffer) (w : Wire) (noise payload rest : List ℕ)
    → IsNoise noise
    → Lacks b'#' payload
    → length payload ≤ inbuf_len
    → (buf' : Buffer) × (recv_pkt_len no_ack buf (reads w (noise ++ (frame payload ++ rest)))
        ≡ packet_of (length payload) buf' (ack no_ack (reads w rest) b'+'))
      × (window buf' 0 (length payload) ≡ payload)
unfolding recv_loop
recv_pkt_len-frame no_ack buf w noise payload rest quiet clean fits = (
  (body_of buf payload).buf,
  rw frame-append (
      at_dollar no_ack buf w noise _ quiet
      ∙ rw (dollar_round, frame_round no_ack buf w payload rest clean fits) refl),
  (body_of-fits buf payload fits).2,
)

conclude_damaged :
    (no_ack : Bool) (b : Body) (x y : Option ℕ) (w : Wire)
    → ((i j : ℕ) → x ≡ some i → y ≡ some j → join_nibbles i j ≢ b.cks)
    → conclude no_ack b x y w ≡ again b.buf (ack no_ack w b'-')
unfolding conclude
conclude_damaged no_ack b (some i) (some j) w wrong = ground (arith, wrong i j refl refl)
conclude_damaged no_ack b (some i) none w wrong = refl
conclude_damaged no_ack b none y w wrong = refl

pub incoming-ack : (no_ack : Bool) (w : Wire) (c : ℕ) → (ack no_ack w c).incoming ≡ w.incoming
unfolding putc
incoming-ack no_ack w c = ground arith

-- A packet without `#` that fits the buffer, behind noise, whose digits do not spell its checksum, or are
-- no digits, is refused: the sender is asked
-- to repeat it unless the session runs without acknowledgements, and the receiver goes on with what
-- follows.
pub recv_pkt_len_damaged :
    (no_ack : Bool) (buf : Buffer) (w : Wire) (noise payload rest : List ℕ) (h1 h2 : ℕ)
    → IsNoise noise
    → Lacks b'#' payload
    → length payload ≤ inbuf_len
    → ((x y : ℕ)
        → from_hex h1 ≡ some x
        → from_hex h2 ≡ some y
        → join_nibbles x y ≢ checksum payload)
    → recv_pkt_len no_ack buf (reads w (noise ++ b'$' ∷ (payload ++ b'#' ∷ h1 ∷ h2 ∷ rest)))
      ≡ recv_pkt_len no_ack (body_of buf payload).buf (ack no_ack (reads w rest) b'-')
recv_pkt_len_damaged no_ack buf w noise payload rest h1 h2 quiet clean fits wrong =
    at_dollar no_ack buf w noise _ quiet
    ∙ recv_loop_again _ no_ack buf _ (reads w (b'$' ∷ (payload ++ b'#' ∷ h1 ∷ h2 ∷ rest))) _ (
        dollar_round no_ack buf _ _
        ∙ packet_round no_ack buf w payload rest h1 h2 clean
        ∙ conclude_damaged no_ack _ (from_hex h1) (from_hex h2) (reads w rest) refused)
    ∙ recv_loop-recv_pkt_len (suc (length (payload ++ b'#' ∷ h1 ∷ h2 ∷ rest))) no_ack _ _
        (omega (arith, ap length left, length-append payload (b'#' ∷ h1 ∷ h2 ∷ rest)))
  where
    left : (ack no_ack (reads w rest) b'-').incoming ≡ rest
    left = incoming-ack no_ack (reads w rest) b'-'

    refused :
        (i j : ℕ)
        → from_hex h1 ≡ some i
        → from_hex h2 ≡ some j
        → join_nibbles i j ≢ (body_of buf payload).cks
    refused i j p q e = wrong i j p q (e ∙ (body_of-fits buf payload fits).1)
