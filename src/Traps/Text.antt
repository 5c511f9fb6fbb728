-- ===== src/Traps/Text.antt =====
-- A trap and the program's text: the breakpoints and the server of
-- jotunheimkernel/src/arch/x86_64/tables/isr together.
use jotunheim.Breakpoint.{Breaks}
use jotunheim.Rsp.Sections.{Sections}
use jotunheim.Rsp.Handlers.{Server}
use jotunheim.Rsp.Server.Text.{KeepsText}
use jotunheim.Traps.{Trap, returns, exits, suspended, overruns, panics, stalls}

-- The trap does not panic, and where it has a state, the breakpoints are well formed, and behind them
-- stands the text of `b`.
abbrev pub TrapKeeps : Breaks → Trap → Type 0
TrapKeeps b (returns s) = KeepsText b s.breaks
TrapKeeps b (exits s) = KeepsText b s.breaks
TrapKeeps b (suspended s) = KeepsText b s.breaks
TrapKeeps b overruns = Unit
TrapKeeps b panics = ⊥
TrapKeeps b stalls = ⊥
