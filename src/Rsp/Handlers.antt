-- ===== src/Rsp/Handlers.antt =====
-- What the server does with one packet: the bodies of the arms of `RspServer::run` in
-- jotunheimkernel/src/debug/rsp/core.rs, one function each.
use jotunheim.Prelude.{
  ℕ, zero, suc, ◌+◌, ◌-◌, ◌*◌, ◌/◌, Bool, true, not, ◌&&◌, ◌||◌, Option, none, some, List, [],
  codes, ltb, leb, ◌==◌, if◌then◌else◌,
}
use jotunheim.Prelude.Buffer.{Buffer, poke}
use jotunheim.Prelude.Words.{add64, sub64, saturating_add, saturating_sub}
use jotunheim.Frame.{TrapFrame, Outcome, resume, single_step, clear_tf, set_tf}
use jotunheim.Machine.{Machine, write_byte}
use jotunheim.Breakpoint.{Breaks, insert, remove}
use jotunheim.Rsp.Hex.{from_hex, hex_hi, hex_lo, join_nibbles}
use jotunheim.Rsp.Packet.{Wire, inbuf_len, send_pkt, send_pkt_raw}
use jotunheim.Rsp.Parse.{parse_hex_usize, parse_addr_len, starts_with}
use jotunheim.Rsp.Registers.{g_hex_len, write_g, read_g}
use jotunheim.Rsp.Sections.{Sections, can_read, can_write}

abbrev pub outbuf_len : ℕ
outbuf_len = 0x2000

abbrev pub tmp_len : ℕ
tmp_len = 0x200

-- The transport, the static buffers and flags, the trap frame, and the machine behind the
-- breakpoints.
pub record Server : Type 0 where
  pub wire : Wire
  pub inbuf : Buffer
  pub outbuf : Buffer
  pub tmp : Buffer
  pub no_ack : Bool
  pub bkpt : Option (ℕ × ℕ)
  pub frame : TrapFrame
  pub breaks : Breaks

-- What a packet leads to: the next packet, the end of the session, or an access behind the end of a
-- static buffer, after which nothing is known: a write into `OUTBUF` or `TMP`, or a read of `INBUF`,
-- which panics.
pub data Step : Type 0 where
  stay : Server → Step
  leave : Outcome → Server → Step
  overrun : Step

unfoldable pub reply : Server → List ℕ → Server
reply s payload = record s { wire = send_pkt s.wire payload }

abbrev pub is_pkt : Server → ℕ → List ℕ → Bool
is_pkt s len pat = starts_with s.inbuf 0 len pat

-- What a query is answered with.
unfoldable pub query_reply : Server → ℕ → List ℕ
query_reply s len =
    if is_pkt s len (codes "qSupported")
    then codes "PacketSize=4000;QStartNoAckMode+"
    else if is_pkt s len (codes "qAttached")
    then codes "1"
    else if is_pkt s len (codes "qfThreadInfo")
    then codes "m1"
    else if is_pkt s len (codes "qsThreadInfo")
    then codes "l"
    else if is_pkt s len (codes "qC")
    then codes "QC1"
    else if is_pkt s len (codes "qTStatus")
    then []
    else if is_pkt s len (codes "vCont?")
    then codes "vCont;c;s"
    else []

unfoldable pub handle_set : Server → ℕ → Step
handle_set s len =
    if is_pkt s len (codes "QStartNoAckMode")
    then stay (reply (record s { no_ack = true }) (codes "OK"))
    else stay (reply s [])

unfoldable pub handle_read_registers : Server → Step
handle_read_registers s =
    let out = (write_g s.outbuf s.frame).buf in
    stay (record s { outbuf = out; wire = send_pkt_raw s.wire out g_hex_len })

unfoldable pub handle_write_registers : Server → ℕ → Step
handle_write_registers s len =
    let pay_len = len - 1 in
    let (ok, frame') = read_g s.frame (λ i. s.inbuf (i + 1)) pay_len in
    if not (pay_len == g_hex_len)
    then stay (reply s (codes "E00"))
    else stay (reply (record s { frame = frame' }) (if ok then codes "OK" else codes "E00"))

-- `n` bytes of memory from `addr` on, as digits from `w` on.
unfoldable pub dump : ℕ → Machine → ℕ → Buffer → ℕ → Buffer
dump zero m addr out w = out
dump (suc n) m addr out w =
    let v = m.bytes addr in
    dump n m (add64 addr 1) (poke (poke out w (hex_hi v)) (w + 1) (hex_lo v)) (w + 2)

-- The policy, or else the 128 KiB on either side of the stack pointer.
unfoldable pub may_read : Sections → TrapFrame → ℕ → ℕ → Bool
may_read m frame addr rlen =
    (not (rlen == 0) && leb rlen (outbuf_len / 2) && can_read m addr rlen)
    || (leb (saturating_sub frame.rsp 0x2_0000) addr
        && leb (saturating_add addr rlen) (saturating_add frame.rsp 0x2_0000))

unfoldable pub handle_read_memory : Sections → Server → ℕ → Step
handle_read_memory m s len = elim (parse_addr_len s.inbuf 1 len) [
  | none ↦ stay (reply s (codes "E00"))
  | some (addr, rlen, used) ↦
      let out = dump rlen s.breaks.machine addr s.outbuf 0 in
      if not (may_read m s.frame addr rlen)
      then stay (reply s (codes "E01"))
      else if ltb outbuf_len (2 * rlen)
      then overrun
      else stay (record s { outbuf = out; wire = send_pkt_raw s.wire out (2 * rlen) })
]

-- The digits of `n` bytes from `off` on, into `TMP` from `i` on; a pair that is no number is answered
-- by `E00`, and leaves its byte of `TMP`.
unfoldable pub fill_tmp : ℕ → Server → ℕ → ℕ → Server
fill_tmp zero s off i = s
fill_tmp (suc n) s off i = elim (from_hex (s.inbuf off)) [
  | none ↦ fill_tmp n (reply s (codes "E00")) (off + 2) (i + 1)
  | some h ↦ elim (from_hex (s.inbuf (off + 1))) [
    | none ↦ fill_tmp n (reply s (codes "E00")) (off + 2) (i + 1)
    | some l ↦ fill_tmp n (record s { tmp = poke s.tmp i (join_nibbles h l) }) (off + 2) (i + 1)
  ]
]

-- `copy_nonoverlapping(tmp, addr, n)`
unfoldable pub copy_out : ℕ → Buffer → ℕ → ℕ → Machine → Machine
copy_out zero tmp i addr m = m
copy_out (suc n) tmp i addr m = copy_out n tmp (i + 1) (addr + 1) (write_byte addr (tmp i) m)

abbrev pub with_machine : Server → Machine → Server
with_machine s m = record s { breaks = record s.breaks { machine = m } }

unfoldable pub handle_write_memory : Sections → Server → ℕ → Step
handle_write_memory m s len = elim (parse_addr_len s.inbuf 1 len) [
  | none ↦ stay (reply s (codes "E00"))
  | some (addr, wlen, used) ↦
      let hex_off = 1 + used + 1 in
      let s' = fill_tmp wlen s hex_off 0 in
      let behind = ltb tmp_len wlen || ltb inbuf_len (hex_off + wlen * 2) in
      if leb len (1 + used) || not (s.inbuf (1 + used) == b':')
      then stay (reply s (codes "E00"))
      else if wlen == 0 || ltb tmp_len wlen || not (can_write m addr wlen)
      then stay (reply s (codes "E01"))
      else if not (len - hex_off == wlen * 2)
      then stay (reply s (codes "E00"))
      else if behind
      then overrun
      else stay
          (reply (with_machine s' (copy_out wlen s'.tmp 0 addr s'.breaks.machine)) (codes "OK"))
]

abbrev ok_or_e01 : Bool → List ℕ
ok_or_e01 ok = if ok then codes "OK" else codes "E01"

unfoldable pub handle_insert : Server → ℕ → Step
handle_insert s len = elim (parse_hex_usize s.inbuf 3 len) [
  | none ↦ stay (reply s (codes "E00"))
  | some (addr, used) ↦
      let (ok, breaks') = insert addr s.breaks in
      stay (reply (record s { breaks = breaks' }) (ok_or_e01 ok))
]

unfoldable pub handle_remove : Server → ℕ → Step
handle_remove s len = elim (parse_hex_usize s.inbuf 3 len) [
  | none ↦ stay (reply s (codes "E00"))
  | some (addr, used) ↦
      let (ok, breaks') = remove addr s.breaks in
      stay (reply (record s { breaks = breaks' }) (ok_or_e01 ok))
]

unfoldable pub handle_continue : Server → Step
handle_continue s =
    let frame' = clear_tf s.frame in
    elim s.bkpt [
      | none ↦ leave resume (record s { frame = frame' })
      | some (addr, orig) ↦
          leave resume (record (with_machine s (write_byte addr orig s.breaks.machine)) {
            bkpt = none;
            frame =
                if frame'.rip == add64 addr 1
                then record frame' { rip = sub64 frame'.rip 1 }
                else frame';
          })
    ]

unfoldable pub handle_step : Server → Step
handle_step s = leave single_step (record s { frame = set_tf s.frame })
