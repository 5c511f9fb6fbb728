-- ===== src/Rsp/Packet/Examples.antt =====
-- Runs of the packet layer, and the theorems at inputs that meet their hypotheses.
use jotunheim.Prelude.{ℕ, ◌≡◌, ◌≢◌, refl, false, [], ◌∷◌, ◌++◌, codes, arith, some}
use jotunheim.Prelude.Buffer.{Buffer, window}
use jotunheim.Rsp.Hex.{from_hex, join_nibbles, hex_hi, hex_lo, hex4}
use jotunheim.Rsp.Packet.{
  Wire, add_check, putc, put_bytes, put_trailer, send_pkt, packet_of, recv_pkt_len, ack,
}
use jotunheim.Rsp.Packet.Send.{frame, checksum}
use jotunheim.Rsp.Packet.Receive.{reads, body_of}
use jotunheim.Rsp.Packet.RoundTrip.{recv_pkt_len-frame, recv_pkt_len_damaged}

abbrev zeros : Buffer
zeros = λ _. 0

abbrev silent : Wire
silent = record { incoming = []; outgoing = [] }

send_runs : (send_pkt silent (codes "OK")).outgoing ≡ codes "$OK#9a"
unfolding send_pkt put_trailer putc put_bytes add_check hex_hi hex_lo hex4
send_runs = refl

recv_pkt_len-frame_example :
    (buf' : Buffer) × (recv_pkt_len false zeros
        (reads silent (codes "+" ++ (frame (codes "m1000,4") ++ [])))
      ≡ packet_of 7 buf' (ack false (reads silent []) b'+'))
    × (window buf' 0 7 ≡ codes "m1000,4")
recv_pkt_len-frame_example =
    recv_pkt_len-frame false zeros silent (codes "+") (codes "m1000,4") [] (omega arith)
      (omega arith) (omega arith)

no_match :
    (x y : ℕ)
    → from_hex b'0' ≡ some x
    → from_hex b'0' ≡ some y
    → join_nibbles x y ≢ checksum (codes "g")
unfolding from_hex join_nibbles add_check
no_match x y p q =
    let a : x ≡ 0 = ground arith in let b : y ≡ 0 = ground arith in rw (a, b) (λ k. cc)

recv_pkt_len_damaged_example :
    recv_pkt_len false zeros
      (reads silent (codes "+" ++ b'$' ∷ (codes "g" ++ b'#' ∷ b'0' ∷ b'0' ∷ [])))
    ≡ recv_pkt_len false (body_of zeros (codes "g")).buf (ack false (reads silent []) b'-')
recv_pkt_len_damaged_example =
    recv_pkt_len_damaged false zeros silent (codes "+") (codes "g") [] b'0' b'0' (omega arith)
      (omega arith) (omega arith) no_match
