-- ===== src/Rsp/Server/Served.antt =====
-- What a session of the server makes of the packets that have come: `RspServer::run` of
-- jotunheimkernel/src/debug/rsp/core.rs.
use jotunheim.Prelude.{ℕ, zero, suc, ◌≤◌, ◌<◌, ◌≡◌, refl, ap, ◌∙◌, Bool, List, [], ◌∷◌, ◌++◌, arith}
use jotunheim.Prelude.Lists.{length, length-append, All}
use jotunheim.Prelude.Buffer.{Buffer, window}
use jotunheim.Prelude.Words.{u64_mod}
use jotunheim.Rsp.Packet.{
  Wire, inbuf_len, ack, waiting, packet_of, recv_loop, recv_round, recv_pkt_len,
}
use jotunheim.Rsp.Packet.Send.{frame, written}
use jotunheim.Rsp.Packet.Receive.{Lacks, reads}
use jotunheim.Rsp.Packet.RoundTrip.{incoming-ack, recv_pkt_len-frame}
use jotunheim.Rsp.Sections.{Sections}
use jotunheim.Rsp.Stop.Reply.{Digits, stop_payload, send_t_stop-frame}
use jotunheim.Rsp.Handlers.{Server, Step, stay, leave, overrun}
use jotunheim.Rsp.Server.{
  Session, ended, waits, overran, serve_packet, after_step, after_recv, serve_loop, run,
}
use jotunheim.Rsp.Server.Ends.{unread, unread-serve_packet}

-- The packets one behind the other.
abbrev pub frames : List (List ℕ) → List ℕ
frames [] = []
frames (p ∷ ps) = frame p ++ frames ps

-- A packet without `#` that fits `INBUF`.
abbrev pub IsPacket : List ℕ → Type 0
IsPacket p = Lacks b'#' p × (length p ≤ inbuf_len)

abbrev pub GoesOn : (Server → Session → Type 0) → Step → Session → Type 0
GoesOn goes (stay s) r = goes s r
GoesOn goes (leave out s) r = r ≡ ended out s
GoesOn goes overrun r = r ≡ overran

-- Each packet in its turn stands in `INBUF`, is acknowledged, and is handled; the session ends with the
-- one that ends it, or waits behind the last.
abbrev pub Serves : Sections → List (List ℕ) → Server → Session → Type 0
Serves m [] s r = r ≡ waits s
Serves m (p ∷ ps) s r =
    (buf : Buffer) × (window buf 0 (length p) ≡ p)
    × GoesOn (Serves m ps)
        (serve_packet m
          (record s { inbuf = buf; wire = ack s.no_ack (reads s.wire (frames ps)) b'+' })
          (length p))
        r

recv_pkt_len_nothing :
    (no_ack : Bool) (buf : Buffer) (w : Wire)
    → w.incoming ≡ []
    → recv_pkt_len no_ack buf w ≡ waiting
unfolding recv_pkt_len recv_loop recv_round
recv_pkt_len_nothing no_ack buf w e = rw e refl

step-GoesOn :
    (m : Sections) (k : Server → Session) (ps : List (List ℕ)) (d : List ℕ) (step : Step)
    → unread d step ≡ d
    → ((s : Server) → s.wire.incoming ≡ d → Serves m ps s (k s))
    → GoesOn (Serves m ps) step (after_step k step)
step-GoesOn m k ps d (stay s) same next = next s same
step-GoesOn m k ps d (leave out s) same next = refl
step-GoesOn m k ps d overrun same next = refl

serve_loop-Serves :
    (fuel : ℕ) (m : Sections) (ps : List (List ℕ)) (s : Server)
    → s.wire.incoming ≡ frames ps
    → length (frames ps) < fuel
    → All IsPacket ps
    → Serves m ps s (serve_loop fuel m s)
unfolding serve_loop
serve_loop-Serves zero m ps s come enough ok = absurd (omega arith)
serve_loop-Serves (suc fuel) m [] s come enough ok =
    ap (after_recv m (serve_loop fuel m) s) (recv_pkt_len_nothing s.no_ack s.inbuf s.wire come)
serve_loop-Serves (suc fuel) m (p ∷ ps) s come enough ((clean, fits), others) =
    let (buf, received, stands) =
      recv_pkt_len-frame s.no_ack s.inbuf s.wire [] p (frames ps) tt clean fits in
    let s1 : Server = record s {
      inbuf = buf;
      wire = ack s.no_ack (reads s.wire (frames ps)) b'+';
    } in
    let whole : recv_pkt_len s.no_ack s.inbuf s.wire ≡ packet_of (length p) buf s1.wire =
      ap (λ (l : List ℕ). recv_pkt_len s.no_ack s.inbuf (reads s.wire l)) come ∙ received in
    let rest : s1.wire.incoming ≡ frames ps =
      incoming-ack s.no_ack (reads s.wire (frames ps)) b'+' in
    let shorter : length (frames ps) < fuel = omega (arith, length-append (frame p) (frames ps)) in
    (
      buf,
      stands,
      rw whole (
          step-GoesOn m (serve_loop fuel m) ps s1.wire.incoming (serve_packet m s1 (length p))
            (unread-serve_packet m s1 (length p))
            (λ s' same. serve_loop-Serves fuel m ps s' (same ∙ rest) shorter others)),
    )

-- A session sends its stop reply, which says the program counter without loss, and then serves the packets
-- that have come, one behind the other: each is received whole, acknowledged unless the session runs
-- without acknowledgements, and handled. The session ends with the one that ends it or that leads behind
-- the end of a buffer, or waits behind the last. The packets hold no `#` and fit `INBUF`, and the program
-- counter is a word of 64 bits.
pub run-Serves :
    (m : Sections) (s : Server) (packets : List (List ℕ))
    → s.frame.rip < u64_mod
    → s.wire.incoming ≡ frames packets
    → All IsPacket packets
    → (ts : List ℕ) × (pc : List ℕ) × Digits 1 ts
      × Digits s.frame.rip pc
      × Serves m packets
          (record s { wire = written s.wire (frame (stop_payload 0x05 ts pc)) })
          (run m s)
unfolding run
run-Serves m s packets small come ok =
    let (ts, pc, dt, dp, e) = send_t_stop-frame s.wire 0x05 1 s.frame.rip (omega arith) small in
    (
      ts,
      pc,
      dt,
      dp,
      rw (e, run)
          (serve_loop-Serves (suc (length s.wire.incoming)) m packets
            (record s { wire = written s.wire (frame (stop_payload 0x05 ts pc)) }) come
            (omega (arith, ap (λ (l : List ℕ). length l) come)) ok),
    )
