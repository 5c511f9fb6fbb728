-- ===== src/Traps.antt =====
-- What the kernel does on a trap: jotunheimkernel/src/arch/x86_64/tables/isr. The breakpoints, the server
-- and the scheduler meet here.
pub mod Text
mod Examples
use jotunheim.Prelude.{ℕ, Bool, true, false, Option, none, some, List, if◌then◌else◌}
use jotunheim.Frame.{TrapFrame, Outcome, resume, single_step, kill_task}
use jotunheim.Breakpoint.{Breaks, on_breakpoint_enter, on_resume_continue, on_resume_step}
use jotunheim.Rsp.Sections.{Sections}
use jotunheim.Rsp.Handlers.{Server}
use jotunheim.Rsp.Server.{Session, ended, waits, overran, panicked, stalled, serve}
use jotunheim.Sched.{RunQueue, tick, kill_current}
use jotunheim.Apic.{Apic, Access, eoi}

-- How a trap goes on: it returns, the task ends, or the session in it does not end; `stalls` is the
-- model's.
pub data Trap : Type 0 where
  returns exits suspended : Server → Trap
  overruns panics stalls : Trap

-- The `match` on the outcome.
unfoldable pub leave_trap : Option ℕ → Outcome → Server → Trap
leave_trap last_hit resume s = returns (record s { breaks = on_resume_continue last_hit s.breaks })
leave_trap last_hit single_step s = returns (record s { breaks = on_resume_step last_hit s.breaks })
leave_trap last_hit kill_task s = exits s

unfoldable pub after_session : Option ℕ → Session → Trap
after_session last_hit (ended out s) = leave_trap last_hit out s
after_session last_hit (waits s) = suspended s
after_session last_hit overran = overruns
after_session last_hit panicked = panics
after_session last_hit stalled = stalls

-- The state in which the server is entered.
abbrev pub entered : Server → Server
entered s =
    let (last_hit, rip, breaks) = on_breakpoint_enter s.frame.rip s.breaks in
    record s { frame = record s.frame { rip = rip }; breaks = breaks }

abbrev pub hit : Server → Option ℕ
hit s = (on_breakpoint_enter s.frame.rip s.breaks).0

-- `isr_db_rust`, and `isr_bp_rust`, which is the same: whether a session is active, and the trap.
unfoldable pub isr_db_rust : Sections → Bool → Server → Bool × Trap
isr_db_rust m active s =
    let (active', session) = serve m active (entered s) in (active', after_session (hit s) session)

unfoldable pub isr_bp_rust : Sections → Bool → Server → Bool × Trap
isr_bp_rust m active s =
    let (active', session) = serve m active (entered s) in (active', after_session (hit s) session)

-- The faults: in a debug build as a breakpoint, else the task ends.
unfoldable pub isr_gp_rust : (debug_assertions : Bool) → Sections → Bool → Server → Bool × Trap
isr_gp_rust debug_assertions m active s =
    if debug_assertions
    then (let (active', session) = serve m active (entered s) in
        (active', after_session (hit s) session))
    else (active, exits s)

unfoldable pub isr_pf_rust : (debug_assertions : Bool) → Sections → Bool → Server → Bool × Trap
isr_pf_rust debug_assertions m active s =
    if debug_assertions
    then (let (active', session) = serve m active (entered s) in
        (active', after_session (hit s) session))
    else (active, exits s)

unfoldable pub isr_df_rust : (debug_assertions : Bool) → Sections → Bool → Server → Bool × Trap
isr_df_rust debug_assertions m active s =
    if debug_assertions
    then (let (active', session) = serve m active (entered s) in
        (active', after_session (hit s) session))
    else (active, exits s)

-- `isr_ud_rust`
unfoldable pub isr_ud_rust : Server → Trap
isr_ud_rust s = exits s

-- What the end of a task does to the run queue.
unfoldable pub exit_current : RunQueue → Option RunQueue
exit_current rq = kill_current rq

-- `isr_timer_rust`: the queue, the registers to go on with, and the accesses.
unfoldable pub isr_timer_rust :
    Apic → RunQueue → TrapFrame → Option (RunQueue × TrapFrame × List Access)
isr_timer_rust a rq tf = elim (tick rq tf) [
  | none ↦ none
  | some (rq', tf') ↦ some (rq', tf', eoi a)
]

-- `isr_default_rust` of the module above
unfoldable pub isr_default_rust : Apic → List Access
isr_default_rust a = eoi a
