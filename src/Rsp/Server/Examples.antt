-- ===== src/Rsp/Server/Examples.antt =====
-- The server, its registers and its policy at inputs that meet the theorems' hypotheses.
use jotunheim.Prelude.{
  ◌<◌, ◌≡◌, refl, true, false, none, [], ◌∷◌, List, ℕ, arith, ◌==◌, if◌then◌else◌,
}
use jotunheim.Prelude.Buffer.{Buffer}
use jotunheim.Prelude.Words.{u64_mod}
use jotunheim.Frame.{blank}
use jotunheim.Machine.{Machine}
use jotunheim.Breakpoint.{init}
use jotunheim.Breakpoint.Shadow.{init-Inv}
use jotunheim.Rsp.Hex.{from_hex}
use jotunheim.Rsp.Parse.{parse_addr_len, parse_hex_usize, parse_loop}
use jotunheim.Rsp.Registers.{g_hex_len, write_g, read_g}
use jotunheim.Rsp.Registers.RoundTrip.{restored, read_g-write_g}
use jotunheim.Rsp.Registers.Layout.{AreWords}
use jotunheim.Rsp.Sections.{Sections, in_range, in_any_range, can_read, can_write}
use jotunheim.Rsp.Handlers.{Server, overrun, handle_read_memory, may_read}
use jotunheim.Rsp.Server.{request_of, perform, handle, run}
use jotunheim.Rsp.Server.Overrun.{LongRead, handle-overrun}
use jotunheim.Rsp.Server.Served.{frames, Serves, run-Serves}
use jotunheim.Rsp.Stop.Reply.{Digits, stop_payload}
use jotunheim.Rsp.Packet.Send.{frame, written}
use jotunheim.Rsp.Server.Text.{StepKeeps, handle-KeepsText}

abbrev sections : Sections
sections = record {
  text = (0x10_0000, 0x11_0000);
  rodata = (0x11_0000, 0x12_0000);
  data_section = (0x12_0000, 0x13_0000);
  bss = (0x13_0000, 0x14_0000);
}

can_write_runs : can_write sections 0x12_0010 8 ≡ true
unfolding can_write in_any_range in_range
can_write_runs = refl

-- `m0,1800`, and a `g`.
abbrev long_request : Buffer
long_request n =
    if n == 0
    then b'm'
    else if n == 2
    then b','
    else if n == 3
    then b'1'
    else if n == 4
    then b'8'
    else b'0'

abbrev machine : Machine
machine = record { bytes = λ _. 0x90; ram = λ _. true; write_protect = true }

abbrev server : Buffer → Server
server packet = record {
  wire = record { incoming = []; outgoing = [] };
  inbuf = packet;
  outbuf = λ _. 0;
  tmp = λ _. 0;
  no_ack = false;
  bkpt = none;
  frame = blank;
  breaks = init machine;
}

zero_words : AreWords blank
zero_words =
    let z : 0 < u64_mod = omega arith in
    (z, (z, (z, (z, (z, (z, (z, (z, (z, (z, (z, (z, (z, (z, (z, (z, (z, tt)))))))))))))))))

read_g-write_g_example :
    ((write_g (λ _. 0) blank).at ≡ 560)
    × (read_g blank (write_g (λ _. 0) blank).buf g_hex_len ≡ (true, restored blank blank))
read_g-write_g_example = read_g-write_g (λ _. 0) blank blank zero_words

overrun_runs : handle sections (server long_request) 7 ≡ overrun
unfolding handle request_of perform handle_read_memory may_read parse_addr_len parse_hex_usize
    parse_loop from_hex can_read in_any_range in_range
overrun_runs = refl

handle-overrun_example :
    ((server long_request).inbuf 0 ≡ b'm') × LongRead sections (server long_request) 7
handle-overrun_example = handle-overrun sections (server long_request) 7 (omega arith) overrun_runs

-- The reason for the stop is asked, then the task is killed.
abbrev asked : List (List ℕ)
asked = (b'?' ∷ []) ∷ (b'k' ∷ []) ∷ []

abbrev busy : Server
busy = record (server (λ _. 0)) { wire = record { incoming = frames asked; outgoing = [] } }

run-Serves_example :
    (ts : List ℕ) × (pc : List ℕ) × Digits 1 ts
    × Digits busy.frame.rip pc
    × Serves sections asked
        (record busy { wire = written busy.wire (frame (stop_payload 0x05 ts pc)) })
        (run sections busy)
run-Serves_example =
    run-Serves sections busy asked (omega arith) refl
      (((omega arith, tt), omega arith), (((omega arith, tt), omega arith), tt))

handle-KeepsText_example : StepKeeps (init machine) (handle sections (server (λ _. b'g')) 1)
handle-KeepsText_example =
    handle-KeepsText sections (server (λ _. b'g')) 1 (init-Inv machine) (omega arith) refl
