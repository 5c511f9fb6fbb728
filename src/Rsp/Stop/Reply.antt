-- ===== src/Rsp/Stop/Reply.antt =====
-- What the stop reply says: the numbers are written in hexadecimal, without loss, and the reply is
-- one well-formed packet.
use native.Mathlib.Nat.{pow-suc}
use jotunheim.Prelude.{
  ℕ, zero, suc, ◌/◌, ◌%◌, ◌^◌, ◌≤◌, ◌<◌, ◌≡◌, ◌≢◌, refl, sym, ap, ◌∙◌, some, List, [], ◌∷◌, ◌++◌,
  append-nil, append_assoc, arith, codes, ◌==◌, false, bit_and, inl, inr, Bool-cases,
}
use jotunheim.Prelude.Lists.{length, length-append}
use jotunheim.Prelude.Words.{bit_and_nibble, u64_mod}
use jotunheim.Rsp.Hex.{hex4, hex_hi, hex_lo, from_hex, from_hex-hex4}
use jotunheim.Rsp.Packet.{Wire, putc}
use jotunheim.Rsp.Packet.Send.{
  checksum_from, frame, written, put_bytes_lem, put_trailer_lem, checksum_from-append,
}
use jotunheim.Rsp.Parse.Numbers.{read_digits, read_digits-append}
use jotunheim.Rsp.Stop.{collect_nibbles, write_hex_u64_stream, send_t_stop}

-- `ds` are the digits of `v`, without a leading zero, and at most `room` of them.
pub record Digits (v : ℕ) (ds : List ℕ) : Type 0 where
  pub value : read_digits 0 ds ≡ some v
  pub nonempty : ds ≢ []
  pub short : length ds ≤ 16

collect_nibbles-digits :
    (room v : ℕ) (tmp : List ℕ)
    → v < 16 ^ room
    → (ds : List ℕ) × (collect_nibbles room v tmp ≡ some (ds ++ tmp))
      × (read_digits 0 ds ≡ some v)
      × (length ds ≤ room)
unfolding collect_nibbles
collect_nibbles-digits zero v tmp h = ([], ground arith, ground arith, omega arith)
collect_nibbles-digits (suc room) v tmp h = elim (Bool-cases (v == 0)) [
  | inl e ↦ ([], rw e, ground arith, omega arith)
  | inr e ↦
      let d : ℕ = hex4 (bit_and v 0xf) in
      let (ds, eq, value, short) =
        collect_nibbles-digits room (v / 16) (d ∷ tmp) (omega (arith, pow-suc 16 room)) in
      (
        ds ++ d ∷ [],
        rw e (eq ∙ ap some (sym (append_assoc ds (d ∷ []) tmp))),
        read_digits-append 0 (v / 16) ds (d ∷ []) value ∙ last v,
        omega (arith, length-append ds (d ∷ [])),
      )
]
  where
    last : (x : ℕ) → read_digits (x / 16) (hex4 (bit_and x 0xf) ∷ []) ≡ some x
    last x = rw (bit_and_nibble, from_hex-hex4 (x % 16) (omega arith)) (ground arith)

digits-ne-nil : (v : ℕ) (ds : List ℕ) → read_digits 0 ds ≡ some v → (v == 0) ≡ false → ds ≢ []
digits-ne-nil v [] h e = λ _. ground arith
digits-ne-nil v (d ∷ ds) h e = λ k. cc

-- A `u64` is written as its digits, whatever the wire and the checksum so far, and never overruns the
-- sixteen entries of the scratch array.
pub write_hex_u64_stream-Digits :
    (v : ℕ)
    → v < u64_mod
    → (ds : List ℕ) × Digits v ds
      × ((w : Wire) (cks : ℕ)
          → write_hex_u64_stream w cks v ≡ some (written w ds, checksum_from cks ds))
unfolding write_hex_u64_stream
write_hex_u64_stream-Digits v h = elim (Bool-cases (v == 0)) [
  | inl e ↦ (
    b'0' ∷ [],
    record { value = unfold from_hex in ground arith; nonempty = λ k. cc; short = omega arith },
    λ w cks. rw e (unfold putc in refl),
  )
  | inr e ↦
      let (ds, eq, value, short) = collect_nibbles-digits 16 v [] (omega arith) in
      (
        ds,
        record { value = value; nonempty = digits-ne-nil v ds value e; short = short },
        λ w cks. rw (e, eq, append-nil) (ap some (put_bytes_lem w cks ds)),
      )
]

-- `Txx;thread:tid;pc:pc;`
abbrev pub stop_payload : ℕ → List ℕ → List ℕ → List ℕ
stop_payload sig tid pc =
    (b'T' ∷ hex_hi sig ∷ hex_lo sig ∷ [])
    ++ (codes ";thread:" ++ (tid ++ (codes ";pc:" ++ (pc ++ b';' ∷ []))))

-- The stop reply is one packet, with the right checksum, that says the signal, the thread and the
-- program counter without loss.
pub send_t_stop-frame :
    (w : Wire) (sig tid pc : ℕ)
    → tid < u64_mod
    → pc < u64_mod
    → (ts : List ℕ) × (ps : List ℕ) × Digits tid ts
      × Digits pc ps
      × (send_t_stop w sig tid pc ≡ some (written w (frame (stop_payload sig ts ps))))
unfolding send_t_stop putc
send_t_stop-frame w sig tid pc ht hp =
    let (ts, dt, writes_t) = write_hex_u64_stream-Digits tid ht in
    let (ps, dp, writes_p) = write_hex_u64_stream-Digits pc hp in
    (
      ts,
      ps,
      dt,
      dp,
      simp (put_bytes_lem, writes_t, writes_p, put_trailer_lem, append_assoc, checksum_from-append),
    )
