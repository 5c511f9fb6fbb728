-- ===== src/Breakpoint/Runs.antt =====
-- The breakpoint table over a whole session: any operations in any order.
use jotunheim.Prelude.{ℕ, ◌≡◌, refl, ◌∙◌, Option, none, some}
use jotunheim.Machine.{Machine}
use jotunheim.Breakpoint.{
  Breaks, init, insert, remove, on_breakpoint_enter, on_resume_continue, on_resume_step,
}
use jotunheim.Breakpoint.Shadow.{shadow, Inv, init-Inv, insert-Inv, insert-shadow}
use jotunheim.Breakpoint.Removal.{remove-Inv, remove-shadow}
use jotunheim.Breakpoint.Hit.{on_breakpoint_enter-Inv, on_breakpoint_enter-shadow}

-- The table and the machine after a start and some operations.
pub data Reached (m : Machine) : Breaks → Type 0 where
  started : Reached m (init m)
  inserted : (s : Breaks) (addr : ℕ) → Reached m s → Reached m (insert addr s).1
  removed : (s : Breaks) (addr : ℕ) → Reached m s → Reached m (remove addr s).1
  entered : (s : Breaks) (rip : ℕ) → Reached m s → Reached m (on_breakpoint_enter rip s).2
  continued :
      (s : Breaks) (last_hit : Option ℕ) → Reached m s → Reached m (on_resume_continue last_hit s)
  stepped : (s : Breaks) (last_hit : Option ℕ) → Reached m s → Reached m (on_resume_step last_hit s)

module _ (m : Machine) where
  -- After any operations in any order the table is well formed, and the text behind the breakpoints is
  -- the one that was in memory at the start: no sequence of insertions, removals, entries into the
  -- debugger and resumptions loses a byte of the program.
  pub Reached-Inv : (s : Breaks) → Reached m s → Inv s × ((a : ℕ) → shadow s a ≡ m.bytes a)
  unfolding init on_resume_continue on_resume_step
  Reached-Inv _ started = (init-Inv m, λ a. refl)
  Reached-Inv _ (inserted s addr r) =
      let (v, same) = Reached-Inv s r in
      (insert-Inv s v addr, λ a. insert-shadow s v addr a ∙ same a)
  Reached-Inv _ (removed s addr r) =
      let (v, same) = Reached-Inv s r in
      (remove-Inv s v addr, λ a. remove-shadow s v addr a ∙ same a)
  Reached-Inv _ (entered s rip r) =
      let (v, same) = Reached-Inv s r in
      (on_breakpoint_enter-Inv s v rip, λ a. on_breakpoint_enter-shadow s v rip a ∙ same a)
  Reached-Inv _ (continued s none r) = Reached-Inv s r
  Reached-Inv _ (continued s (some addr) r) =
      let (v, same) = Reached-Inv s r in
      (insert-Inv s v addr, λ a. insert-shadow s v addr a ∙ same a)
  Reached-Inv _ (stepped s last_hit r) =
      let (v, same) = Reached-Inv s r in
      (record { size = v.size; distinct = v.distinct; planted = v.planted }, same)
