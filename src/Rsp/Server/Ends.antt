-- ===== src/Rsp/Server/Ends.antt =====
-- A session of the server always comes to an end or to a wait: each packet takes bytes, and what the
-- server does with a packet reads none.
use jotunheim.Prelude.{
  ℕ, zero, suc, ◌+◌, ◌-◌, ◌*◌, ◌<◌, ◌≡◌, ◌≢◌, refl, ap, ◌∙◌, true, inl, inr, List, [], codes, arith,
  ◌==◌, Bool-cases, Option-cases,
}
use jotunheim.Prelude.Lists.{length}
use jotunheim.Prelude.Words.{u64_mod}
use jotunheim.Breakpoint.{insert, remove}
use jotunheim.Rsp.Hex.{from_hex}
use jotunheim.Rsp.Packet.{Wire, Recv, packet_of, waiting, stuck, recv_pkt_len}
use jotunheim.Rsp.Packet.Send.{send_pkt-frame, send_pkt_raw-frame}
use jotunheim.Rsp.Packet.Fuel.{recv_pkt_len-ne-stuck, recv_pkt_len-shorter}
use jotunheim.Rsp.Parse.{parse_addr_len, parse_hex_usize}
use jotunheim.Rsp.Sections.{Sections}
use jotunheim.Rsp.Stop.Reply.{send_t_stop-frame}
use jotunheim.Rsp.Registers.{g_hex_len, read_g}
use jotunheim.Rsp.Handlers.{
  dump, copy_out, with_machine, query_reply, Server, Step, stay, leave, overrun, reply, handle_set,
  handle_read_registers, handle_write_registers, handle_read_memory, handle_write_memory, fill_tmp,
  handle_insert, handle_remove, handle_continue, handle_step,
}
use jotunheim.Rsp.Server.{
  Request, request_of, perform, stop_reason, set_thread, query, set_option, read_registers,
  write_registers, read_memory, write_memory, insert_breakpoint, remove_breakpoint, ask_vcont,
  continue_task, step_task, kill, break_in, unknown, handle, Session, panicked, stalled,
  serve_packet, after_step, after_recv, serve_loop, run,
}

-- The unread bytes after a step; `d` where the session does not go on.
abbrev pub unread : List ℕ → Step → List ℕ
unread d (stay s) = s.wire.incoming
unread d (leave out s) = d
unread d overrun = d

incoming-reply : (s : Server) (payload : List ℕ) → (reply s payload).wire.incoming ≡ s.wire.incoming
unfolding reply
incoming-reply s payload = rw send_pkt-frame refl

incoming-fill_tmp :
    (n : ℕ) (s : Server) (off i : ℕ) → (fill_tmp n s off i).wire.incoming ≡ s.wire.incoming
unfolding fill_tmp
incoming-fill_tmp zero s off i = refl
incoming-fill_tmp (suc n) s off i = elim (Option-cases (from_hex (s.inbuf off))) [
  | inl e ↦ rw (e, fill_tmp) (incoming-fill_tmp n _ _ _ ∙ incoming-reply s (codes "E00"))
  | inr (h, e) ↦ elim (Option-cases (from_hex (s.inbuf (off + 1)))) [
    | inl e' ↦ rw (e, fill_tmp, e') (incoming-fill_tmp n _ _ _ ∙ incoming-reply s (codes "E00"))
    | inr (l, e') ↦ rw (e, fill_tmp, e') (incoming-fill_tmp n _ _ _)
  ]
]

module _ (m : Sections) (s : Server) (len : ℕ) where
  unread-handle_set : unread s.wire.incoming (handle_set s len) ≡ s.wire.incoming
  unfolding handle_set
  unread-handle_set =
      ground (arith, incoming-reply s [], incoming-reply (record s { no_ack = true }) (codes "OK"))

  unread-handle_write_registers :
      unread s.wire.incoming (handle_write_registers s len) ≡ s.wire.incoming
  unfolding handle_write_registers
  unread-handle_write_registers = elim (Bool-cases (len - 1 == g_hex_len)) [
    | inr e ↦ rw e (incoming-reply s (codes "E00"))
    | inl e ↦ rw e (
        incoming-reply (record s { frame = (read_g s.frame (λ i. s.inbuf (i + 1)) (len - 1)).1 }) _)
  ]

  unread-handle_read_memory : unread s.wire.incoming (handle_read_memory m s len) ≡ s.wire.incoming
  unfolding handle_read_memory
  unread-handle_read_memory = elim (Option-cases (parse_addr_len s.inbuf 1 len)) [
    | inl e ↦ rw (e, handle_read_memory) (incoming-reply s (codes "E00"))
    | inr ((addr, rlen, used), e) ↦ ground (
      arith,
      e,
      incoming-reply s (codes "E01"),
      ap (λ (w : Wire). w.incoming)
          (send_pkt_raw-frame s.wire (dump rlen s.breaks.machine addr s.outbuf 0) (2 * rlen)),
    )
  ]

  unread-handle_write_memory :
      unread s.wire.incoming (handle_write_memory m s len) ≡ s.wire.incoming
  unfolding handle_write_memory
  unread-handle_write_memory = elim (Option-cases (parse_addr_len s.inbuf 1 len)) [
    | inl e ↦ rw (e, handle_write_memory) (incoming-reply s (codes "E00"))
    | inr ((addr, wlen, used), e) ↦
        let s' : Server = fill_tmp wlen s (1 + used + 1) 0 in
        ground (
          arith,
          e,
          incoming-reply s (codes "E00"),
          incoming-reply s (codes "E01"),
          incoming-fill_tmp wlen s (1 + used + 1) 0,
          incoming-reply (with_machine s' (copy_out wlen s'.tmp 0 addr s'.breaks.machine))
              (codes "OK"),
        )
  ]

  unread-handle_insert : unread s.wire.incoming (handle_insert s len) ≡ s.wire.incoming
  unfolding handle_insert
  unread-handle_insert = elim (Option-cases (parse_hex_usize s.inbuf 3 len)) [
    | inl e ↦ rw (e, handle_insert) (incoming-reply s (codes "E00"))
    | inr ((addr, used), e) ↦
        rw (e, handle_insert) (incoming-reply (record s { breaks = (insert addr s.breaks).1 }) _)
  ]

  unread-handle_remove : unread s.wire.incoming (handle_remove s len) ≡ s.wire.incoming
  unfolding handle_remove
  unread-handle_remove = elim (Option-cases (parse_hex_usize s.inbuf 3 len)) [
    | inl e ↦ rw (e, handle_remove) (incoming-reply s (codes "E00"))
    | inr ((addr, used), e) ↦
        rw (e, handle_remove) (incoming-reply (record s { breaks = (remove addr s.breaks).1 }) _)
  ]

  unread-handle_continue : unread s.wire.incoming (handle_continue s) ≡ s.wire.incoming
  unfolding handle_continue
  unread-handle_continue = elim (Option-cases s.bkpt) [
    | inl e ↦ rw (e, handle_continue) refl
    | inr ((addr, orig), e) ↦ rw (e, handle_continue) refl
  ]

  unread-perform : (r : Request) → unread s.wire.incoming (perform m s len r) ≡ s.wire.incoming
  unfolding perform handle_read_registers handle_step
  unread-perform stop_reason = incoming-reply s (codes "S05")
  unread-perform set_thread = incoming-reply s (codes "OK")
  unread-perform query = incoming-reply s (query_reply s len)
  unread-perform set_option = unread-handle_set
  unread-perform read_registers = rw send_pkt_raw-frame refl
  unread-perform write_registers = unread-handle_write_registers
  unread-perform read_memory = unread-handle_read_memory
  unread-perform write_memory = unread-handle_write_memory
  unread-perform insert_breakpoint = unread-handle_insert
  unread-perform remove_breakpoint = unread-handle_remove
  unread-perform ask_vcont = incoming-reply s (codes "vCont;c;s")
  unread-perform continue_task = unread-handle_continue
  unread-perform step_task = refl
  unread-perform kill = refl
  unread-perform break_in = incoming-reply s (codes "S02")
  unread-perform unknown = incoming-reply s []

  pub unread-serve_packet : unread s.wire.incoming (serve_packet m s len) ≡ s.wire.incoming
  unfolding serve_packet handle
  unread-serve_packet = elim (Bool-cases (len == 0)) [
    | inl e ↦ rw e (incoming-reply s [])
    | inr e ↦ rw e (unread-perform (request_of s len))
  ]

after_step-ne-stalled :
    (k : Server → Session) (d : List ℕ) (step : Step)
    → unread d step ≡ d
    → ((s : Server) → s.wire.incoming ≡ d → k s ≢ stalled)
    → after_step k step ≢ stalled
after_step-ne-stalled k d (stay s) e ends = ends s e
after_step-ne-stalled k d (leave out s) e ends = λ h. cc
after_step-ne-stalled k d overrun e ends = λ h. cc

after_recv-ne-stalled :
    (m : Sections) (k : Server → Session) (s : Server) (n : ℕ) (r : Recv)
    → recv_pkt_len s.no_ack s.inbuf s.wire ≡ r
    → length s.wire.incoming < suc n
    → ((s' : Server) → length s'.wire.incoming < n → k s' ≢ stalled)
    → after_recv m k s r ≢ stalled
after_recv-ne-stalled m k s n (packet_of len buf w) e below ends =
    after_step-ne-stalled k w.incoming (serve_packet m (record s { inbuf = buf; wire = w }) len)
      (unread-serve_packet m (record s { inbuf = buf; wire = w }) len)
      λ s' same.
        ends s'
          (omega (arith, ap length same, recv_pkt_len-shorter s.no_ack s.inbuf s.wire len buf w e))
after_recv-ne-stalled m k s n waiting e below ends = λ h. cc
after_recv-ne-stalled m k s n stuck e below ends =
    absurd (recv_pkt_len-ne-stuck s.no_ack s.inbuf s.wire e)

serve_loop-ne-stalled :
    (fuel : ℕ) (m : Sections) (s : Server)
    → length s.wire.incoming < fuel
    → serve_loop fuel m s ≢ stalled
unfolding serve_loop
serve_loop-ne-stalled zero m s h = absurd (omega arith)
serve_loop-ne-stalled (suc fuel) m s h =
    after_recv-ne-stalled m (serve_loop fuel m) s fuel _ refl h
      λ s' h'. serve_loop-ne-stalled fuel m s' h'

after_step-ne-panicked :
    (k : Server → Session)
    → ((s : Server) → k s ≢ panicked)
    → (step : Step) → after_step k step ≢ panicked
after_step-ne-panicked k goes (stay s) = goes s
after_step-ne-panicked k goes (leave out s) = λ h. cc
after_step-ne-panicked k goes overrun = λ h. cc

after_recv-ne-panicked :
    (m : Sections) (k : Server → Session) (s : Server)
    → ((s' : Server) → k s' ≢ panicked)
    → (r : Recv) → after_recv m k s r ≢ panicked
after_recv-ne-panicked m k s goes (packet_of len buf w) =
    after_step-ne-panicked k goes (serve_packet m (record s { inbuf = buf; wire = w }) len)
after_recv-ne-panicked m k s goes waiting = λ h. cc
after_recv-ne-panicked m k s goes stuck = λ h. cc

serve_loop-ne-panicked : (fuel : ℕ) (m : Sections) (s : Server) → serve_loop fuel m s ≢ panicked
unfolding serve_loop
serve_loop-ne-panicked zero m s = λ h. cc
serve_loop-ne-panicked (suc fuel) m s =
    after_recv-ne-panicked m _ s (serve_loop-ne-panicked fuel m)
      (recv_pkt_len s.no_ack s.inbuf s.wire)

-- Whatever has come, the rounds of a session are enough, and its stop reply does not panic.
pub run-serves :
    (m : Sections) (s : Server) → s.frame.rip < u64_mod → (run m s ≢ stalled) × (run m s ≢ panicked)
unfolding run
run-serves m s h =
    let (ts, ps, dt, dp, e) = send_t_stop-frame s.wire 0x05 1 s.frame.rip (omega arith) h in
    rw (e, run) (serve_loop-ne-stalled _ m _ (omega arith), serve_loop-ne-panicked _ m _)
