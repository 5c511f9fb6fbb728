-- ===== src/Rsp/Registers/RoundTrip.antt =====
-- What `read_g` makes of the text that `write_g` wrote.
use jotunheim.Prelude.{◌%◌, ◌^◌, ◌≡◌, ap, ◌∙◌, true, ◌++◌, arith, bit_and, bit_or}
use jotunheim.Prelude.Lists.{replicate}
use jotunheim.Prelude.Buffer.{Buffer}
use jotunheim.Prelude.Words.{not64}
use jotunheim.Frame.{TrapFrame}
use jotunheim.Rsp.Registers.{Cursor, write_g, fields, read_g, g_hex_len}
use jotunheim.Rsp.Registers.Bytes.{Spelled, put_all-Spelled, at-put_all}
use jotunheim.Rsp.Registers.Fields.{concat, read_fields-Encodes}
use jotunheim.Rsp.Registers.Layout.{
  AreWords, chunks, values, text, write_g-text, length-text, length-chunks, text-chunks,
  chunks-Encodes, text-All,
}

-- The registers of `u` after those of `t` were written to it.
abbrev pub restored : TrapFrame → TrapFrame → TrapFrame
restored t u = record u {
  rax = t.rax;
  rbx = t.rbx;
  rcx = t.rcx;
  rdx = t.rdx;
  rsi = t.rsi;
  rdi = t.rdi;
  rbp = t.rbp;
  rsp = t.rsp;
  r8 = t.r8;
  r9 = t.r9;
  r10 = t.r10;
  r11 = t.r11;
  r12 = t.r12;
  r13 = t.r13;
  r14 = t.r14;
  r15 = t.r15;
  rip = t.rip;
  rflags = bit_or (bit_and u.rflags (not64 0xffff_ffff)) (t.ss % 2 ^ 32);
}

write_g-Spelled :
    (out : Buffer) (t : TrapFrame)
    → Spelled (write_g out t).buf 0 (concat (chunks t) ++ replicate 92 0)
write_g-Spelled out t =
    rw (write_g-text, ← text-chunks t)
      (put_all-Spelled (record { buf = out; at = 0 }) (text t) (text-All t))

-- `write_g` writes 560 digits, and `read_g` takes them, with what follows them up to the 572 that it
-- wants. Every general register and the instruction pointer is what was written; the low half of
-- the flags is not the flags but the stack segment that was written.
pub read_g-write_g :
    (out : Buffer) (t u : TrapFrame)
    → AreWords t
    → ((write_g out t).at ≡ 560) × (read_g u (write_g out t).buf g_hex_len ≡ (true, restored t u))
unfolding read_g
read_g-write_g out t u h = (
  ap (λ (c : Cursor). c.at) (write_g-text out t)
      ∙ at-put_all (record { buf = out; at = 0 }) (text t)
      ∙ omega (arith, length-text t),
  read_fields-Encodes fields (chunks t) (values t) (replicate 92 0) (write_g out t).buf g_hex_len 0
      u (chunks-Encodes t h) (write_g-Spelled out t) (omega (arith, length-chunks t)),
)
