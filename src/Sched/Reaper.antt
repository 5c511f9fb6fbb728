-- ===== src/Sched/Reaper.antt =====
-- The reaper thread that `init` spawns: it ages the dead tasks and takes the ones out whose time is
-- up. And what a tick does to a task that was killed.
use jotunheim.Prelude.{
  ℕ, ◌-◌, ◌≡◌, ◌≢◌, refl, ap, inl, inr, true, false, not, ◌&&◌, Option, none, some, List, [], ◌∷◌,
  ◌++◌, arith, ◌==◌, if◌then◌else◌, Bool-cases, Option-cases, ◌>>=◌,
}
use jotunheim.Prelude.Lists.{All}
use jotunheim.Sched.{is_dead, Task, RunQueue}

-- A dead task that still has time loses one of it.
unfoldable pub age : Task → Task
age t =
    if is_dead t.state && not (t.time_slice == 0)
    then record t { time_slice = t.time_slice - 1 }
    else t

-- The identities of the dead tasks with no time left, the last one first.
unfoldable pub expired : List Task → List ℕ → List ℕ
expired [] deads = deads
expired (t ∷ ts) deads =
    expired ts (if is_dead t.state && t.time_slice == 0 then t.id ∷ deads else deads)

-- `while id == tasks[i].id { i += 1 }`, and then `tasks.remove(i)`; `none` is the panic at an index
-- past the last task.
unfoldable pub remove_dead : ℕ → List Task → Option (List Task)
remove_dead id [] = none
remove_dead id (t ∷ ts) = elim (id == t.id) [
  | true ↦ elim (remove_dead id ts) [ none ↦ none | some ts' ↦ some (t ∷ ts') ]
  | false ↦ some ts
]

unfoldable pub remove_all : List ℕ → List Task → Option (List Task)
remove_all [] tasks = some tasks
remove_all (id ∷ ids) tasks = remove_dead id tasks >>= λ tasks'. remove_all ids tasks'

unfoldable pub age_all : List Task → List Task
age_all [] = []
age_all (t ∷ ts) = age t ∷ age_all ts

unfoldable pub reap : RunQueue → Option RunQueue
reap rq = remove_all (expired rq.tasks []) (age_all rq.tasks) >>= λ tasks.
    some (record rq { tasks = tasks })

-- What the loop takes out is the first task that has another identity: the tasks in front of it all
-- have the identity that was to go, and stay.
pub remove_dead_other :
    (id : ℕ) (tasks tasks' : List Task)
    → remove_dead id tasks ≡ some tasks'
    → (before : List Task) × (t : Task) × (after : List Task) × (tasks ≡ before ++ t ∷ after)
      × (tasks' ≡ before ++ after)
      × All (λ u. u.id ≡ id) before
      × (t.id ≢ id)
unfolding remove_dead
remove_dead_other id [] tasks' e = ground arith
remove_dead_other id (t ∷ ts) tasks' e = elim (Bool-cases (id == t.id)) [
  | inr other ↦ ([], t, ts, refl, ground arith, tt, ground arith)
  | inl same ↦ elim (Option-cases (remove_dead id ts)) [
    | inl n ↦ ground arith
    | inr (ts', e') ↦
        let (before, u, after, split, left, all, ne) = remove_dead_other id ts ts' e' in
        (t ∷ before, u, after, ap (◌∷◌ t) split, ground arith, (ground arith, all), ne)
  ]
]
