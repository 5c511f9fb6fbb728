-- ===== src/Rsp/Server/Text.antt =====
-- The program's text under the debugger: the only packet that changes it is the one that writes
-- memory.
use jotunheim.Prelude.{ℕ, ◌≡◌, ◌≢◌, refl, inl, inr, none, arith, Option-cases}
use jotunheim.Breakpoint.{Breaks}
use jotunheim.Breakpoint.Shadow.{shadow, Inv, insert-Inv, insert-shadow}
use jotunheim.Breakpoint.Removal.{remove-Inv, remove-shadow}
use jotunheim.Rsp.Parse.{parse_addr_len, parse_hex_usize}
use jotunheim.Rsp.Sections.{Sections}
use jotunheim.Rsp.Handlers.{
  Server, Step, stay, leave, overrun, reply, handle_set, handle_read_registers,
  handle_write_registers, handle_read_memory, handle_insert, handle_remove, handle_continue,
  handle_step,
}
use jotunheim.Rsp.Server.{
  Request, request_of, perform, handle, stop_reason, set_thread, query, set_option, read_registers,
  write_registers, read_memory, write_memory, insert_breakpoint, remove_breakpoint, ask_vcont,
  continue_task, step_task, kill, break_in, unknown,
}

-- The breakpoints and the machine after a step; `d` where nothing is known of them.
abbrev pub breaks_after : Breaks → Step → Breaks
breaks_after d (stay s) = s.breaks
breaks_after d (leave out s) = s.breaks
breaks_after d overrun = d

-- The breakpoints are well formed, and behind them stands the text of `b`.
abbrev pub KeepsText : Breaks → Breaks → Type 0
KeepsText b b' = Inv b' × ((a : ℕ) → shadow b' a ≡ shadow b a)

-- The same of the state after a step. Behind a static buffer anything may have been overwritten, and
-- nothing is said.
abbrev pub StepKeeps : Breaks → Step → Type 0
StepKeeps b (stay s) = KeepsText b s.breaks
StepKeeps b (leave out s) = KeepsText b s.breaks
StepKeeps b overrun = Unit

StepKeeps-step : (b : Breaks) (step : Step) → KeepsText b (breaks_after b step) → StepKeeps b step
StepKeeps-step b (stay s) h = h
StepKeeps-step b (leave out s) h = h
StepKeeps-step b overrun h = tt

module _ (m : Sections) (s : Server) (len : ℕ) where
  breaks-handle_set : breaks_after s.breaks (handle_set s len) ≡ s.breaks
  unfolding handle_set reply
  breaks-handle_set = ground arith

  breaks-handle_write_registers : breaks_after s.breaks (handle_write_registers s len) ≡ s.breaks
  unfolding handle_write_registers reply
  breaks-handle_write_registers = ground arith

  breaks-handle_read_memory : breaks_after s.breaks (handle_read_memory m s len) ≡ s.breaks
  unfolding handle_read_memory reply
  breaks-handle_read_memory = elim (Option-cases (parse_addr_len s.inbuf 1 len)) [
    | inl e ↦ rw (e, handle_read_memory) refl
    | inr ((addr, rlen, used), e) ↦ ground arith
  ]

  breaks-handle_continue : s.bkpt ≡ none → breaks_after s.breaks (handle_continue s) ≡ s.breaks
  unfolding handle_continue
  breaks-handle_continue e = rw (e, handle_continue) refl

  module _ (v : Inv s.breaks) where
    handle_insert-KeepsText : KeepsText s.breaks (breaks_after s.breaks (handle_insert s len))
    unfolding handle_insert reply
    handle_insert-KeepsText = elim (Option-cases (parse_hex_usize s.inbuf 3 len)) [
      | inl e ↦ rw (e, handle_insert) (v, λ a. refl)
      | inr ((addr, used), e) ↦
          rw (e, handle_insert) (insert-Inv s.breaks v addr, insert-shadow s.breaks v addr)
    ]

    handle_remove-KeepsText : KeepsText s.breaks (breaks_after s.breaks (handle_remove s len))
    unfolding handle_remove reply
    handle_remove-KeepsText = elim (Option-cases (parse_hex_usize s.inbuf 3 len)) [
      | inl e ↦ rw (e, handle_remove) (v, λ a. refl)
      | inr ((addr, used), e) ↦
          rw (e, handle_remove) (remove-Inv s.breaks v addr, remove-shadow s.breaks v addr)
    ]

    same-KeepsText : (b : Breaks) → b ≡ s.breaks → KeepsText s.breaks b
    same-KeepsText b e = rw e (v, λ a. refl)

    perform-KeepsText :
        (r : Request)
        → r ≢ write_memory
        → s.bkpt ≡ none
        → KeepsText s.breaks (breaks_after s.breaks (perform m s len r))
    unfolding perform reply handle_read_registers handle_step
    perform-KeepsText stop_reason ne e = (v, λ a. refl)
    perform-KeepsText set_thread ne e = (v, λ a. refl)
    perform-KeepsText query ne e = (v, λ a. refl)
    perform-KeepsText set_option ne e = same-KeepsText _ breaks-handle_set
    perform-KeepsText read_registers ne e = (v, λ a. refl)
    perform-KeepsText write_registers ne e = same-KeepsText _ breaks-handle_write_registers
    perform-KeepsText read_memory ne e = same-KeepsText _ breaks-handle_read_memory
    perform-KeepsText write_memory ne e = absurd (ne refl)
    perform-KeepsText insert_breakpoint ne e = handle_insert-KeepsText
    perform-KeepsText remove_breakpoint ne e = handle_remove-KeepsText
    perform-KeepsText ask_vcont ne e = (v, λ a. refl)
    perform-KeepsText continue_task ne e = same-KeepsText _ (breaks-handle_continue e)
    perform-KeepsText step_task ne e = (v, λ a. refl)
    perform-KeepsText kill ne e = (v, λ a. refl)
    perform-KeepsText break_in ne e = (v, λ a. refl)
    perform-KeepsText unknown ne e = (v, λ a. refl)

    pub write_memory_byte : s.inbuf 0 ≢ b'M' → request_of s len ≢ write_memory
    unfolding request_of
    write_memory_byte ne e = ground arith

    pub handle-breaks_after :
        s.inbuf 0 ≢ b'M'
        → s.bkpt ≡ none
        → KeepsText s.breaks (breaks_after s.breaks (handle m s len))
    unfolding handle
    handle-breaks_after ne e = perform-KeepsText (request_of s len) (write_memory_byte ne) e

    -- A packet that is no request to write memory keeps the breakpoints well formed, and changes no
    -- byte of the text behind them, if they were well formed and `BKPT` holds nothing; of a packet that
    -- makes the server write behind a static buffer nothing is said.
    pub handle-KeepsText : s.inbuf 0 ≢ b'M' → s.bkpt ≡ none → StepKeeps s.breaks (handle m s len)
    handle-KeepsText ne e = StepKeeps-step s.breaks (handle m s len) (handle-breaks_after ne e)
