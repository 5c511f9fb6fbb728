-- ===== src/Rsp/Server.antt =====
-- The server: the loop and the `match` of `RspServer::run` in jotunheimkernel/src/debug/rsp/core.rs, and `serve` of jotunheimkernel/src/debug/mod.rs.
pub mod Overrun
pub mod Ends
pub mod Text
pub mod Served
pub mod Quiet
mod Examples
use jotunheim.Prelude.{
  ℕ, zero, suc, ◌+◌, ◌-◌, ◌*◌, ◌/◌, Bool, true, false, not, ◌&&◌, ◌||◌, Option, none, some, List,
  [], ◌∷◌, codes, ltb, leb, ◌==◌, if◌then◌else◌,
}
use jotunheim.Prelude.Lists.{length}
use jotunheim.Prelude.Buffer.{Buffer, poke}
use jotunheim.Prelude.Words.{add64, sub64, saturating_add, saturating_sub}
use jotunheim.Frame.{TrapFrame, Outcome, resume, single_step, kill_task, clear_tf, set_tf}
use jotunheim.Machine.{Machine, write_byte}
use jotunheim.Breakpoint.{Breaks, insert, remove}
use jotunheim.Rsp.Hex.{from_hex, hex_hi, hex_lo, join_nibbles}
use jotunheim.Rsp.Packet.{
  Wire, send_pkt, send_pkt_raw, inbuf_len, Recv, packet_of, waiting, stuck, recv_pkt_len,
}
use jotunheim.Rsp.Parse.{parse_hex_usize, parse_addr_len, starts_with}
use jotunheim.Rsp.Registers.{g_hex_len, write_g, read_g}
use jotunheim.Rsp.Sections.{Sections, can_read, can_write}
use jotunheim.Rsp.Stop.{send_t_stop}
use jotunheim.Rsp.Handlers.{
  outbuf_len, tmp_len, Server, Step, reply, is_pkt, query_reply, handle_set, handle_read_registers,
  handle_write_registers, dump, may_read, handle_read_memory, fill_tmp, copy_out, with_machine,
  handle_write_memory, handle_insert, handle_remove, handle_continue, handle_step, stay, leave,
  overrun,
}

-- The arms of the `match` on a packet that is not empty.
pub data Request : Type 0 where
  stop_reason set_thread query set_option read_registers write_registers : Request
  read_memory write_memory insert_breakpoint remove_breakpoint ask_vcont : Request
  continue_task step_task kill break_in unknown : Request

-- The first arm that matches.
unfoldable pub request_of : Server → ℕ → Request
request_of s len =
    let b0 = s.inbuf 0 in
    if b0 == b'?'
    then stop_reason
    else if b0 == b'H'
    then set_thread
    else if b0 == b'q'
    then query
    else if b0 == b'Q'
    then set_option
    else if b0 == b'g'
    then read_registers
    else if b0 == b'G'
    then write_registers
    else if b0 == b'm'
    then read_memory
    else if b0 == b'M'
    then write_memory
    else if b0 == b'Z' && is_pkt s len (codes "Z0,")
    then insert_breakpoint
    else if b0 == b'z' && is_pkt s len (codes "z0,")
    then remove_breakpoint
    else if b0 == b'v' && is_pkt s len (codes "vCont?")
    then ask_vcont
    else if b0 == b'v' && is_pkt s len (codes "vCont;c")
    then continue_task
    else if b0 == b'v' && is_pkt s len (codes "vCont;s")
    then step_task
    else if b0 == b'c'
    then continue_task
    else if b0 == b's'
    then step_task
    else if b0 == b'k'
    then kill
    else if b0 == 0x03
    then break_in
    else unknown

-- The bodies of the arms.
unfoldable pub perform : Sections → Server → ℕ → Request → Step
perform m s len stop_reason = stay (reply s (codes "S05"))
perform m s len set_thread = stay (reply s (codes "OK"))
perform m s len query = stay (reply s (query_reply s len))
perform m s len set_option = handle_set s len
perform m s len read_registers = handle_read_registers s
perform m s len write_registers = handle_write_registers s len
perform m s len read_memory = handle_read_memory m s len
perform m s len write_memory = handle_write_memory m s len
perform m s len insert_breakpoint = handle_insert s len
perform m s len remove_breakpoint = handle_remove s len
perform m s len ask_vcont = stay (reply s (codes "vCont;c;s"))
perform m s len continue_task = handle_continue s
perform m s len step_task = handle_step s
perform m s len kill = leave kill_task s
perform m s len break_in = stay (reply s (codes "S02"))
perform m s len unknown = stay (reply s [])

unfoldable pub handle : Sections → Server → ℕ → Step
handle m s len = perform m s len (request_of s len)

-- How a session goes on: it ends, it waits for a packet in the state that it has, it writes behind a
-- buffer, it panics; `stalled` is no outcome of the program: the fuel ran out.
pub data Session : Type 0 where
  ended : Outcome → Server → Session
  waits : Server → Session
  overran panicked stalled : Session

-- An empty packet is answered by an empty one.
unfoldable pub serve_packet : Sections → Server → ℕ → Step
serve_packet m s len = if len == 0 then stay (reply s []) else handle m s len

abbrev pub after_step : (Server → Session) → Step → Session
after_step continues (stay s) = continues s
after_step continues (leave out s) = ended out s
after_step continues overrun = overran

abbrev pub after_recv : Sections → (Server → Session) → Server → Recv → Session
after_recv m continues s (packet_of len buf w) =
    after_step continues (serve_packet m (record s { inbuf = buf; wire = w }) len)
after_recv m continues s waiting = waits s
after_recv m continues s stuck = stalled

unfoldable pub serve_loop : ℕ → Sections → Server → Session
serve_loop zero m s = stalled
serve_loop (suc fuel) m s =
    after_recv m (serve_loop fuel m) s (recv_pkt_len s.no_ack s.inbuf s.wire)

-- Each packet takes a byte at least.
unfoldable pub run : Sections → Server → Session
run m s = elim (send_t_stop s.wire 0x05 1 s.frame.rip) [
  | none ↦ panicked
  | some w ↦ serve_loop (suc (length w.incoming)) m (record s { wire = w })
]

-- `serve`: a nested entry goes on at once; `active` is set while the session lasts, and clear after.
unfoldable pub serve : Sections → Bool → Server → Bool × Session
serve m active s = if active then (true, ended resume s) else elim (run m s) [
  | ended out s' ↦ (false, ended out s')
  | waits s' ↦ (true, waits s')
  | overran ↦ (true, overran)
  | panicked ↦ (true, panicked)
  | stalled ↦ (true, stalled)
]
