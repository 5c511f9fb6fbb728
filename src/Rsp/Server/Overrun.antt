-- ===== src/Rsp/Server/Overrun.antt =====
-- Which packet can write behind the end of a static buffer.
use jotunheim.Prelude.{ℕ, ◌*◌, ◌<◌, ◌≤◌, ◌≡◌, ◌≢◌, refl, inl, inr, some, arith, Option-cases}
use jotunheim.Prelude.Words.{saturating_add, saturating_sub}
use jotunheim.Rsp.Packet.{inbuf_len}
use jotunheim.Rsp.Parse.{parse_addr_len, parse_hex_usize}
use jotunheim.Rsp.Sections.{Sections}
use jotunheim.Rsp.Handlers.{
  Server, overrun, handle_set, handle_read_registers, handle_write_registers, handle_read_memory,
  handle_write_memory, handle_insert, handle_remove, handle_continue, handle_step, may_read,
  outbuf_len,
}
use jotunheim.Rsp.Server.{
  handle, Request, request_of, perform, stop_reason, set_thread, query, set_option, read_registers,
  write_registers, read_memory, write_memory, insert_breakpoint, remove_breakpoint, ask_vcont,
  continue_task, step_task, kill, break_in, unknown,
}

-- The stack window: 128 KiB on either side of the stack pointer.
abbrev pub InWindow : ℕ → ℕ → ℕ → Type 0
InWindow rsp addr rlen =
    (saturating_sub rsp 0x2_0000 ≤ addr) × (saturating_add addr rlen ≤ saturating_add rsp 0x2_0000)

module _ (m : Sections) (s : Server) (len : ℕ) where
  set_stays : handle_set s len ≢ overrun
  unfolding handle_set
  set_stays e = ground arith

  write_registers_stays : handle_write_registers s len ≢ overrun
  unfolding handle_write_registers
  write_registers_stays e = ground arith

  write_memory_stays : len ≤ inbuf_len → handle_write_memory m s len ≢ overrun
  unfolding handle_write_memory
  write_memory_stays fits e = elim (Option-cases (parse_addr_len s.inbuf 1 len)) [
    | inl n ↦ ground arith
    | inr ((addr, wlen, used), found) ↦ ground (arith, fits)
  ]

  insert_stays : handle_insert s len ≢ overrun
  unfolding handle_insert
  insert_stays e = elim (Option-cases (parse_hex_usize s.inbuf 3 len)) [
    | inl n ↦ ground arith
    | inr ((addr, used), found) ↦ ground arith
  ]

  remove_stays : handle_remove s len ≢ overrun
  unfolding handle_remove
  remove_stays e = elim (Option-cases (parse_hex_usize s.inbuf 3 len)) [
    | inl n ↦ ground arith
    | inr ((addr, used), found) ↦ ground arith
  ]

  continue_stays : handle_continue s ≢ overrun
  unfolding handle_continue
  continue_stays e = elim (Option-cases s.bkpt) [
    | inl n ↦ ground arith
    | inr ((addr, orig), found) ↦ ground arith
  ]

  -- The range that a request to read names is longer than the buffer, and is in the stack window.
  abbrev pub LongRead : Type 0
  LongRead =
      (addr : ℕ) × (rlen : ℕ) × (used : ℕ) × (parse_addr_len s.inbuf 1 len
        ≡ some (addr, rlen, used))
      × (outbuf_len < 2 * rlen)
      × InWindow s.frame.rsp addr rlen

  read_memory_overrun : handle_read_memory m s len ≡ overrun → LongRead
  unfolding handle_read_memory may_read
  read_memory_overrun e = elim (Option-cases (parse_addr_len s.inbuf 1 len)) [
    | inl n ↦ ground arith
    | inr ((addr, rlen, used), found) ↦
        (addr, rlen, used, found, ground arith, (ground arith, ground arith))
  ]

  perform-overrun :
      len ≤ inbuf_len → (r : Request) → perform m s len r ≡ overrun → (r ≡ read_memory) × LongRead
  unfolding perform handle_read_registers handle_step
  perform-overrun fits stop_reason e = cc
  perform-overrun fits set_thread e = cc
  perform-overrun fits query e = cc
  perform-overrun fits set_option e = absurd (set_stays e)
  perform-overrun fits read_registers e = cc
  perform-overrun fits write_registers e = absurd (write_registers_stays e)
  perform-overrun fits read_memory e = (refl, read_memory_overrun e)
  perform-overrun fits write_memory e = absurd (write_memory_stays fits e)
  perform-overrun fits insert_breakpoint e = absurd (insert_stays e)
  perform-overrun fits remove_breakpoint e = absurd (remove_stays e)
  perform-overrun fits ask_vcont e = cc
  perform-overrun fits continue_task e = absurd (continue_stays e)
  perform-overrun fits step_task e = cc
  perform-overrun fits kill e = cc
  perform-overrun fits break_in e = cc
  perform-overrun fits unknown e = cc

  read_memory_byte : request_of s len ≡ read_memory → s.inbuf 0 ≡ b'm'
  unfolding request_of
  read_memory_byte e = ground arith

  -- Of the packets that fit `INBUF`, only a request to read memory leads behind the end of a static
  -- buffer, be it `OUTBUF`, `TMP` or `INBUF`, and only one whose text is longer than the buffer and whose
  -- range lies within 128 KiB of the stack pointer.
  pub handle-overrun : len ≤ inbuf_len → handle m s len ≡ overrun → (s.inbuf 0 ≡ b'm') × LongRead
  unfolding handle
  handle-overrun fits e =
      let (asked, long) = perform-overrun fits (request_of s len) e in
      (read_memory_byte asked, long)
