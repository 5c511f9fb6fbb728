-- ===== src/Rsp/Packet/Send.antt =====
-- What the senders write: the frame of the payload.
use jotunheim.Prelude.{
  ℕ, zero, suc, ◌≡◌, refl, List, [], ◌∷◌, ◌++◌, append_assoc, append-nil, arith,
}
use jotunheim.Prelude.Buffer.{Buffer, window}
use jotunheim.Rsp.Hex.{hex_hi, hex_lo}
use jotunheim.Rsp.Packet.{
  Wire, putc, add_check, put_bytes, put_trailer, send_pkt, put_raw, send_pkt_raw,
}

-- The sum of the bytes, modulo 256.
abbrev pub checksum_from : ℕ → List ℕ → ℕ
checksum_from cks [] = cks
checksum_from cks (b ∷ bs) = checksum_from (add_check cks b) bs

abbrev pub checksum : List ℕ → ℕ
checksum = checksum_from 0

-- `$payload#xx`
abbrev pub frame : List ℕ → List ℕ
frame payload =
    b'$' ∷ (payload ++ b'#' ∷ hex_hi (checksum payload) ∷ hex_lo (checksum payload) ∷ [])

-- A wire on which `bytes` more have been written.
abbrev pub written : Wire → List ℕ → Wire
written w bytes = record w { outgoing = w.outgoing ++ bytes }

pub put_bytes_lem :
    (w : Wire) (cks : ℕ) (bs : List ℕ) → put_bytes w cks bs ≡ (written w bs, checksum_from cks bs)
unfolding put_bytes putc
put_bytes_lem w cks [] = rw append-nil
put_bytes_lem w cks (b ∷ bs) =
    rw (put_bytes_lem (putc w b) (add_check cks b) bs)
      (ground (arith, append_assoc w.outgoing (b ∷ []) bs))

pub put_trailer_lem :
    (w : Wire) (cks : ℕ) → put_trailer w cks ≡ written w (b'#' ∷ hex_hi cks ∷ hex_lo cks ∷ [])
unfolding put_trailer putc
put_trailer_lem w cks = simp append_assoc

-- `send_pkt` writes the frame of its payload and reads nothing.
pub send_pkt-frame : (w : Wire) (payload : List ℕ) → send_pkt w payload ≡ written w (frame payload)
unfolding send_pkt putc
send_pkt-frame w payload = simp (put_bytes_lem, put_trailer_lem, append_assoc)

put_raw-put_bytes :
    (w : Wire) (cks : ℕ) (buf : Buffer) (i n : ℕ)
    → put_raw w cks buf i n ≡ put_bytes w cks (window buf i n)
unfolding put_raw put_bytes
put_raw-put_bytes w cks buf i zero = refl
put_raw-put_bytes w cks buf i (suc n) =
    put_raw-put_bytes (putc w (buf i)) (add_check cks (buf i)) buf (suc i) n

-- `send_pkt_raw` sends the first bytes of the buffer.
pub send_pkt_raw-frame :
    (w : Wire) (buf : Buffer) (len : ℕ)
    → send_pkt_raw w buf len ≡ written w (frame (window buf 0 len))
unfolding send_pkt_raw putc
send_pkt_raw-frame w buf len =
    simp (put_raw-put_bytes, put_bytes_lem, put_trailer_lem, append_assoc)

pub checksum_from-append :
    (cks : ℕ) (xs ys : List ℕ)
    → checksum_from cks (xs ++ ys) ≡ checksum_from (checksum_from cks xs) ys
checksum_from-append cks [] ys = refl
checksum_from-append cks (x ∷ xs) ys = checksum_from-append (add_check cks x) xs ys
