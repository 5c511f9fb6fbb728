-- ===== src/Frame.antt =====
-- The trap frame of jotunheimkernel/src/arch/x86_64/context.rs, and the trap flag and outcomes of
-- jotunheimkernel/src/debug/mod.rs.
pub mod TrapFlag
use jotunheim.Prelude.{ℕ, bit_and, bit_or}
use jotunheim.Prelude.Words.{not64}

pub record TrapFrame : Type 0 where
  pub r15 : ℕ
  pub r14 : ℕ
  pub r13 : ℕ
  pub r12 : ℕ
  pub r11 : ℕ
  pub r10 : ℕ
  pub r9 : ℕ
  pub r8 : ℕ
  pub rsi : ℕ
  pub rdi : ℕ
  pub rbp : ℕ
  pub rdx : ℕ
  pub rcx : ℕ
  pub rbx : ℕ
  pub rax : ℕ
  pub vec : ℕ
  pub err : ℕ
  pub rip : ℕ
  pub cs : ℕ
  pub rflags : ℕ
  pub rsp : ℕ
  pub ss : ℕ

-- `TrapFrame::default()`
abbrev pub blank : TrapFrame
blank = record {
  r15 = 0;
  r14 = 0;
  r13 = 0;
  r12 = 0;
  r11 = 0;
  r10 = 0;
  r9 = 0;
  r8 = 0;
  rsi = 0;
  rdi = 0;
  rbp = 0;
  rdx = 0;
  rcx = 0;
  rbx = 0;
  rax = 0;
  vec = 0;
  err = 0;
  rip = 0;
  cs = 0;
  rflags = 0;
  rsp = 0;
  ss = 0;
}

-- What the debugger asks of the trap that called it.
pub data Outcome : Type 0 where
  resume single_step kill_task : Outcome

-- `tf.rflags &= !(1 << 8)`
unfoldable pub clear_tf : TrapFrame → TrapFrame
clear_tf tf = record tf { rflags = bit_and tf.rflags (not64 0x100) }

-- `tf.rflags |= 1 << 8`
unfoldable pub set_tf : TrapFrame → TrapFrame
set_tf tf = record tf { rflags = bit_or tf.rflags 0x100 }
