-- ===== src/Traps/Examples.antt =====
-- A breakpoint that is hit, and a debugger that goes on.
use jotunheim.Prelude.{true, false, none, [], codes}
use jotunheim.Frame.{blank}
use jotunheim.Machine.{Machine}
use jotunheim.Breakpoint.{Breaks, init, insert}
use jotunheim.Rsp.Sections.{Sections}
use jotunheim.Rsp.Packet.Send.{frame}
use jotunheim.Rsp.Handlers.{Server}
use jotunheim.Rsp.Server.Quiet.{Quiet}

abbrev machine : Machine
machine = record { bytes = λ _. 0x90; ram = λ _. true; write_protect = true }

abbrev sections : Sections
sections = record {
  text = (0x10_0000, 0x11_0000);
  rodata = (0x11_0000, 0x12_0000);
  data_section = (0x12_0000, 0x13_0000);
  bss = (0x13_0000, 0x14_0000);
}

abbrev planted : Breaks
planted = (insert 0x10_0000 (init machine)).1

-- The packet `c` waits.
abbrev trapped : Server
trapped = record {
  wire = record { incoming = codes "$c#63"; outgoing = [] };
  inbuf = λ _. 0;
  outbuf = λ _. 0;
  tmp = λ _. 0;
  no_ack = false;
  bkpt = none;
  frame = record blank { rip = 0x10_0001 };
  breaks = planted;
}
