-- ===== src/Sched/Examples.antt =====
-- Runs of the scheduler, and the theorems at inputs that meet their hypotheses.
use jotunheim.Prelude.{
  ℕ, zero, suc, ◌≡◌, ◌≢◌, refl, true, false, Option, none, some, List, [], ◌∷◌, ◌++◌, arith,
  if◌then◌else◌,
}
use jotunheim.Prelude.Lists.{get_elem?, All}
use jotunheim.Frame.{TrapFrame, blank}
use jotunheim.Sched.{
  TaskState, ready, running, dead, Task, RunQueue, ready_at, pick_next, pick_after, tick, charge,
  count_down, any_ready, suspend, suspend_current, modify, switch_to, Entry,
}
use jotunheim.Sched.Pick.{FirstEligible, pick_next-FirstEligible}
use jotunheim.Sched.Running.{RunsOnly, Inv, tick-Inv}
use jotunheim.Sched.Reaper.{remove_dead, remove_dead_other}
use jotunheim.Sched.Revival.{tick_revives}

abbrev task : ℕ → TaskState → ℕ → Task
task id state slice = record { id = id; state = state; time_slice = slice; trap = blank }

-- The first task runs, the second one is ready; or the first one was killed while it ran.
abbrev queue : TaskState → RunQueue
queue state = record {
  tasks = task 2 state 1 ∷ task 1 ready 5 ∷ [];
  current = some 0;
  next_id = 3;
  need_resched = true;
}

queue-Inv : (state : TaskState) → Inv (queue state)
queue-Inv state = record { only = only; inside = λ c k. ground arith }
  where
    only : RunsOnly (some 0) (queue state).tasks
    only zero t e r = refl
    only (suc zero) t e r = ground arith
    only (suc (suc i)) t e r = cc

pick_runs : pick_next (queue running) ≡ some 1
unfolding pick_next pick_after
pick_runs = refl

tick-Inv_example : (r : RunQueue × TrapFrame) × (tick (queue running) blank ≡ some r) × Inv r.0
tick-Inv_example = tick-Inv (queue running) blank (queue-Inv running)

pick_next-FirstEligible_example :
    (r : Option ℕ) × FirstEligible (queue running).tasks 0 1 0 r
    × (pick_next (queue running) ≡ elim r [
      | some i ↦ some i
      | none ↦ if ready_at (queue running).tasks 0 then some 0 else none
    ])
pick_next-FirstEligible_example = pick_next-FirstEligible (queue running) 0 refl (omega arith)

abbrev entry : Entry
entry = record { trampoline = 0x4000; kernel_cs = 8 }

remove_runs : remove_dead 7 (task 7 dead 0 ∷ task 1 ready 5 ∷ []) ≡ some (task 7 dead 0 ∷ [])
unfolding remove_dead
remove_runs = refl

remove_dead_other_example :
    (before : List Task) × (t : Task) × (after : List Task) × (task 7 dead 0 ∷ task 1 ready 5 ∷ []
      ≡ before ++ t ∷ after)
    × (task 7 dead 0 ∷ [] ≡ before ++ after)
    × All (λ u. u.id ≡ 7) before
    × (t.id ≢ 7)
remove_dead_other_example =
    remove_dead_other 7 (task 7 dead 0 ∷ task 1 ready 5 ∷ []) (task 7 dead 0 ∷ []) remove_runs

-- After a tick in which the first task was dead.
abbrev after_tick : RunQueue
after_tick = record {
  tasks = task 2 ready 5 ∷ task 1 running 5 ∷ [];
  current = some 1;
  next_id = 3;
  need_resched = false;
}

tick_runs : tick (queue dead) blank ≡ some (after_tick, blank)
unfolding tick charge count_down any_ready pick_next pick_after switch_to suspend_current suspend
    modify
tick_runs = refl

tick_revives_example : (t : Task) × (get_elem? after_tick.tasks 0 ≡ some t) × (t.state ≡ ready)
tick_revives_example =
    tick_revives (queue dead) after_tick blank blank 0 1 (queue-Inv dead) refl tick_runs refl
      (λ k. cc)
