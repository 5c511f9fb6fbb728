-- ===== src/Rsp/Server/Quiet.antt =====
-- The program's text over a whole session of the server, jotunheimkernel/src/debug/rsp/core.rs, in which
-- the debugger writes no memory.
use jotunheim.Prelude.{
  ℕ, zero, suc, ◌≡◌, ◌≢◌, refl, ◌∙◌, inl, inr, Option, none, some, arith, ◌==◌, Bool-cases,
  Option-cases,
}
use jotunheim.Prelude.Lists.{length}
use jotunheim.Breakpoint.{Breaks}
use jotunheim.Breakpoint.Shadow.{Inv}
use jotunheim.Rsp.Packet.{Wire, Recv, packet_of, waiting, stuck, recv_pkt_len}
use jotunheim.Rsp.Parse.{parse_addr_len, parse_hex_usize}
use jotunheim.Rsp.Sections.{Sections}
use jotunheim.Rsp.Stop.{send_t_stop}
use jotunheim.Rsp.Handlers.{
  Server, Step, stay, leave, overrun, reply, handle_set, handle_read_registers,
  handle_write_registers, handle_read_memory, handle_insert, handle_remove, handle_continue,
  handle_step,
}
use jotunheim.Rsp.Server.{
  Request, request_of, perform, handle, stop_reason, set_thread, query, set_option, read_registers,
  write_registers, read_memory, write_memory, insert_breakpoint, remove_breakpoint, ask_vcont,
  continue_task, step_task, kill, break_in, unknown, Session, ended, waits, overran, panicked,
  stalled, serve_packet, after_step, after_recv, serve_loop, run,
}
use jotunheim.Rsp.Server.Text.{breaks_after, KeepsText, handle-breaks_after, write_memory_byte}

-- `BKPT` after a step
abbrev bkpt_after : Step → Option (ℕ × ℕ)
bkpt_after (stay s) = s.bkpt
bkpt_after (leave out s) = s.bkpt
bkpt_after overrun = none

module _ (m : Sections) (s : Server) (len : ℕ) (clear : s.bkpt ≡ none) where
  bkpt-handle_read_memory : bkpt_after (handle_read_memory m s len) ≡ none
  unfolding handle_read_memory reply
  bkpt-handle_read_memory = elim (Option-cases (parse_addr_len s.inbuf 1 len)) [
    | inl e ↦ rw (e, handle_read_memory) clear
    | inr ((addr, rlen, used), e) ↦ ground (arith, clear)
  ]

  bkpt-handle_insert : bkpt_after (handle_insert s len) ≡ none
  unfolding handle_insert reply
  bkpt-handle_insert = elim (Option-cases (parse_hex_usize s.inbuf 3 len)) [
    | inl e ↦ rw (e, handle_insert) clear
    | inr ((addr, used), e) ↦ rw (e, handle_insert) clear
  ]

  bkpt-handle_remove : bkpt_after (handle_remove s len) ≡ none
  unfolding handle_remove reply
  bkpt-handle_remove = elim (Option-cases (parse_hex_usize s.inbuf 3 len)) [
    | inl e ↦ rw (e, handle_remove) clear
    | inr ((addr, used), e) ↦ rw (e, handle_remove) clear
  ]

  bkpt-handle_continue : bkpt_after (handle_continue s) ≡ none
  unfolding handle_continue
  bkpt-handle_continue = rw (clear, handle_continue) clear

  bkpt-perform : (r : Request) → r ≢ write_memory → bkpt_after (perform m s len r) ≡ none
  unfolding perform reply handle_read_registers handle_step handle_set handle_write_registers
  bkpt-perform stop_reason ne = clear
  bkpt-perform set_thread ne = clear
  bkpt-perform query ne = clear
  bkpt-perform set_option ne = ground (arith, clear)
  bkpt-perform read_registers ne = clear
  bkpt-perform write_registers ne = ground (arith, clear)
  bkpt-perform read_memory ne = bkpt-handle_read_memory
  bkpt-perform write_memory ne = absurd (ne refl)
  bkpt-perform insert_breakpoint ne = bkpt-handle_insert
  bkpt-perform remove_breakpoint ne = bkpt-handle_remove
  bkpt-perform ask_vcont ne = clear
  bkpt-perform continue_task ne = bkpt-handle_continue
  bkpt-perform step_task ne = clear
  bkpt-perform kill ne = clear
  bkpt-perform break_in ne = clear
  bkpt-perform unknown ne = clear

-- No packet of the session is a request to write memory, as long as it goes on.
abbrev pub QuietStep : (Server → Type 0) → Step → Type 0
QuietStep goes (stay s) = goes s
QuietStep goes (leave out s) = Unit
QuietStep goes overrun = Unit

abbrev pub QuietRecv : Sections → (Server → Type 0) → Server → Recv → Type 0
QuietRecv m goes s (packet_of len buf w) =
    (buf 0 ≢ b'M') × QuietStep goes (serve_packet m (record s { inbuf = buf; wire = w }) len)
QuietRecv m goes s waiting = Unit
QuietRecv m goes s stuck = Unit

unfoldable pub Quiet : ℕ → Sections → Server → Type 0
Quiet zero m s = Unit
Quiet (suc fuel) m s = QuietRecv m (Quiet fuel m) s (recv_pkt_len s.no_ack s.inbuf s.wire)

-- Where the session stops with a state, the text is the one of `b`.
abbrev pub SessionKeeps : Breaks → Session → Type 0
SessionKeeps b (ended out s) = KeepsText b s.breaks
SessionKeeps b (waits s) = KeepsText b s.breaks
SessionKeeps b overran = Unit
SessionKeeps b panicked = Unit
SessionKeeps b stalled = Unit

KeepsText-trans : (b b' b'' : Breaks) → KeepsText b b' → KeepsText b' b'' → KeepsText b b''
KeepsText-trans b b' b'' (v, same) (v', same') = (v', λ a. same' a ∙ same a)

module _ (m : Sections) where
  serve_packet-KeepsText :
      (s : Server) (len : ℕ)
      → Inv s.breaks
      → s.bkpt ≡ none
      → s.inbuf 0 ≢ b'M'
      → KeepsText s.breaks (breaks_after s.breaks (serve_packet m s len))
        × (bkpt_after (serve_packet m s len) ≡ none)
  unfolding serve_packet handle reply
  serve_packet-KeepsText s len v clear quiet = elim (Bool-cases (len == 0)) [
    | inl e ↦ rw e ((v, λ a. refl), clear)
    | inr e ↦ rw e (
      handle-breaks_after m s len v quiet clear,
      bkpt-perform m s len clear (request_of s len) (write_memory_byte m s len v quiet),
    )
  ]

  after_step-Keeps :
      (b d : Breaks) (k : Server → Session) (goes : Server → Type 0) (step : Step)
      → KeepsText b (breaks_after d step)
      → bkpt_after step ≡ none
      → QuietStep goes step
      → ((s : Server) → KeepsText b s.breaks → s.bkpt ≡ none → goes s → SessionKeeps b (k s))
      → SessionKeeps b (after_step k step)
  after_step-Keeps b d k goes (stay s) text clear quiet next = next s text clear quiet
  after_step-Keeps b d k goes (leave out s) text clear quiet next = text
  after_step-Keeps b d k goes overrun text clear quiet next = tt

  after_recv-Keeps :
      (b : Breaks) (k : Server → Session) (goes : Server → Type 0) (s : Server) (r : Recv)
      → KeepsText b s.breaks
      → s.bkpt ≡ none
      → QuietRecv m goes s r
      → ((s : Server) → KeepsText b s.breaks → s.bkpt ≡ none → goes s → SessionKeeps b (k s))
      → SessionKeeps b (after_recv m k s r)
  after_recv-Keeps b k goes s (packet_of len buf w) text clear (no_write, quiet) next =
      let s' = record s { inbuf = buf; wire = w } in
      let (kept, clear') = serve_packet-KeepsText s' len text.0 clear no_write in
      after_step-Keeps b s.breaks k goes (serve_packet m s' len)
        (KeepsText-trans b s.breaks _ text kept) clear' quiet next
  after_recv-Keeps b k goes s waiting text clear quiet next = text
  after_recv-Keeps b k goes s stuck text clear quiet next = tt

  serve_loop-Keeps :
      (b : Breaks) (fuel : ℕ) (s : Server)
      → KeepsText b s.breaks
      → s.bkpt ≡ none
      → Quiet fuel m s
      → SessionKeeps b (serve_loop fuel m s)
  unfolding serve_loop Quiet
  serve_loop-Keeps b zero s text clear quiet = tt
  serve_loop-Keeps b (suc fuel) s text clear quiet =
      after_recv-Keeps b (serve_loop fuel m) (Quiet fuel m) s _ text clear quiet
        (λ s' text' clear' quiet'. serve_loop-Keeps b fuel s' text' clear' quiet')

  -- No packet of the session that `run` serves writes memory.
  abbrev pub QuietRun : Server → Type 0
  QuietRun s =
      (w : Wire)
      → send_t_stop s.wire 0x05 1 s.frame.rip ≡ some w
      → Quiet (suc (length w.incoming)) m (record s { wire = w })

  pub run-Keeps :
      (s : Server) → Inv s.breaks → s.bkpt ≡ none → QuietRun s → SessionKeeps s.breaks (run m s)
  unfolding run
  run-Keeps s v clear quiet = elim (Option-cases (send_t_stop s.wire 0x05 1 s.frame.rip)) [
    | inl e ↦ rw (e, run) tt
    | inr (w, e) ↦
        rw (e, run)
          (serve_loop-Keeps s.breaks (suc (length w.incoming)) (record s { wire = w })
            (v, λ a. refl) clear (quiet w e))
  ]
