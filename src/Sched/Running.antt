-- ===== src/Sched/Running.antt =====
-- The current task is the only one that runs, and its index is within the queue, so no operation
-- panics.
use jotunheim.Prelude.{
  ℕ, zero, suc, ◌+◌, ◌<◌, ◌≡◌, ◌≢◌, refl, inl, inr, Bool, true, false, ◌&&◌, ◌||◌, Option, none,
  some, List, ◌∷◌, arith, ◌==◌, Bool-cases, Option-cases,
}
use jotunheim.Prelude.Lists.{
  length, length-set, get_elem?, get_elem?-lt, lt-get_elem?, get_elem?-set, set,
}
use jotunheim.Frame.{TrapFrame}
use jotunheim.Sched.{
  running, Task, RunQueue, ready_at, pick_next, count_down, any_ready, charge, suspend,
  suspend_current, modify, switch_to, tick, Entry, new_task, spawn_kthread, kill, kill_current,
  u32_max,
}
use jotunheim.Sched.Pick.{pick_next-ready_at}

abbrev pub RunsOnly : Option ℕ → List Task → Type 0
RunsOnly current tasks =
    (i : ℕ) (t : Task) → get_elem? tasks i ≡ some t → t.state ≡ running → current ≡ some i

pub record Inv (rq : RunQueue) : Type 0 where
  pub only : RunsOnly rq.current rq.tasks
  pub inside : (c : ℕ) → rq.current ≡ some c → c < length rq.tasks

-- A task is replaced by one in the same state.
RunsOnly-set :
    (current : Option ℕ) (tasks : List Task) (k : ℕ) (t t' : Task)
    → RunsOnly current tasks
    → get_elem? tasks k ≡ some t
    → t'.state ≡ t.state
    → RunsOnly current (set tasks k t')
RunsOnly-set current tasks k t t' only e same i u f r =
    ground (arith, get_elem?-set tasks k i t', only i t, only i u)

-- With the current task stopped, none runs.
RunsOnly-stop :
    (c : ℕ) (tasks : List Task) (t' : Task)
    → RunsOnly (some c) tasks
    → t'.state ≢ running
    → RunsOnly none (set tasks c t')
RunsOnly-stop c tasks t' only stopped i u f r = ground (arith, get_elem?-set tasks c i t', only i u)

-- Where none runs, one may be started.
RunsOnly-start :
    (k : ℕ) (tasks : List Task) (t' : Task)
    → RunsOnly none tasks
    → RunsOnly (some k) (set tasks k t')
RunsOnly-start k tasks t' only i u f r = ground (arith, get_elem?-set tasks k i t', only i u)

-- The current task's state is its own after a tick of its slice.
state-count_down : (t : Task) → (count_down t).0.state ≡ t.state
unfolding count_down
state-count_down t = ground arith

pub charge-Inv :
    (rq : RunQueue) (current : Option ℕ)
    → rq.current ≡ current
    → Inv rq
    → (r : RunQueue × Bool) × (charge rq current ≡ some r) × Inv r.0 × (r.0.current ≡ current)
unfolding charge
charge-Inv rq none e v = (
  (record rq { need_resched = true }, true),
  refl,
  record { only = v.only; inside = v.inside },
  e,
)
charge-Inv rq (some c) e v =
    let (t, at) = lt-get_elem? rq.tasks c (v.inside c e) in
    let t' : Task = (count_down t).0 in
    let tasks' : List Task = set rq.tasks c t' in
    (
      (
        record rq { tasks = tasks'; need_resched = (count_down t).1 || rq.need_resched },
        t'.time_slice == u32_max && any_ready c 0 tasks',
      ),
      rw (at, charge),
      record {
        only = RunsOnly-set rq.current rq.tasks c t t' v.only at (state-count_down t);
        inside = λ d k. omega (arith, length-set rq.tasks c t', v.inside d k);
      },
      e,
    )

suspend_current-RunsOnly :
    (rq : RunQueue) (tf : TrapFrame) (current : Option ℕ)
    → rq.current ≡ current
    → Inv rq
    → (tasks : List Task) × (suspend_current rq tf current ≡ some tasks)
      × RunsOnly none tasks
      × (length tasks ≡ length rq.tasks)
unfolding suspend_current modify suspend
suspend_current-RunsOnly rq tf none e v = (rq.tasks, refl, rw e at v.only, refl)
suspend_current-RunsOnly rq tf (some c) e v =
    let (t, at) = lt-get_elem? rq.tasks c (v.inside c e) in
    (
      set rq.tasks c (suspend tf t),
      rw (at, suspend_current, modify),
      RunsOnly-stop c rq.tasks (suspend tf t) (rw e at v.only) (λ k. cc),
      length-set rq.tasks c (suspend tf t),
    )

switch_to-Inv :
    (rq : RunQueue) (tf : TrapFrame) (i : ℕ)
    → Inv rq
    → i < length rq.tasks
    → (r : RunQueue × TrapFrame) × (switch_to rq tf i ≡ some r) × Inv r.0 × (r.0.current ≡ some i)
unfolding switch_to
switch_to-Inv rq tf i v h =
    let (tasks, e, none_runs, len) = suspend_current-RunsOnly rq tf rq.current refl v in
    let (t, at) = lt-get_elem? tasks i (omega arith) in
    let t' : Task = record t { state = running } in
    (
      (record rq { tasks = set tasks i t'; current = some i; need_resched = false }, t.trap),
      rw (e, at) refl,
      record {
        only = RunsOnly-start i tasks t' none_runs;
        inside = λ c k. ground (arith, length-set tasks i t');
      },
      refl,
    )

pub ready_at-lt : (tasks : List Task) (i : ℕ) → ready_at tasks i ≡ true → i < length tasks
ready_at-lt tasks i h = elim (Option-cases (get_elem? tasks i)) [
  | inl e ↦ ground arith
  | inr (t, e) ↦ get_elem?-lt tasks i e
]

-- A tick never panics on a well-formed queue, and keeps it well formed: the current task is within
-- the queue, and no other task runs.
pub tick-Inv :
    (rq : RunQueue) (tf : TrapFrame)
    → Inv rq
    → (r : RunQueue × TrapFrame) × (tick rq tf ≡ some r) × Inv r.0
unfolding tick
tick-Inv rq tf v =
    let (r, e, v', _) = charge-Inv rq rq.current refl v in
    elim (Bool-cases (r.0.need_resched || r.1)) [
      | inr stay ↦ ((r.0, tf), rw (e, stay) refl, v')
      | inl move ↦ elim (Option-cases (pick_next r.0)) [
        | inl none_ready ↦ ((r.0, tf), rw (e, move, none_ready) refl, v')
        | inr (i, picked) ↦
            let (r', e', v'', _) =
              switch_to-Inv r.0 tf i v'
                (ready_at-lt r.0.tasks i (pick_next-ready_at r.0 i picked)) in
            (r', rw (e, move, picked) e', v'')
      ]
    ]

RunsOnly-cons :
    (current : Option ℕ) (t : Task) (tasks : List Task)
    → t.state ≢ running
    → RunsOnly current tasks
    → RunsOnly (elim current [ none ↦ none | some c ↦ some (c + 1) ]) (t ∷ tasks)
RunsOnly-cons current t tasks stopped only zero u f r = ground arith
RunsOnly-cons current t tasks stopped only (suc i) u f r = ground (arith, only i u f r)

-- A new task goes to the front, ready, and the queue stays well formed: the current task keeps its
-- place behind the new one.
pub spawn_kthread-Inv :
    (e : Entry) (base : ℕ) (rq : RunQueue) → Inv rq → Inv (spawn_kthread e base rq).1
unfolding spawn_kthread new_task
spawn_kthread-Inv e base rq v = record {
  only = RunsOnly-cons rq.current (new_task e base rq.next_id) rq.tasks (λ k. cc) v.only;
  inside = λ c k. elim (Option-cases rq.current) [
    | inl n ↦ ground arith
    | inr (d, at) ↦ ground (arith, v.inside d at)
  ];
}

-- Killing the current task never panics on a well-formed queue, and keeps it well formed.
pub kill_current-Inv :
    (rq : RunQueue) → Inv rq → (rq' : RunQueue) × (kill_current rq ≡ some rq') × Inv rq'
unfolding kill_current modify kill
kill_current-Inv rq v = elim (Option-cases rq.current) [
  | inl n ↦ (rq, ground arith, v)
  | inr (c, now) ↦
      let (t, at) = lt-get_elem? rq.tasks c (v.inside c now) in
      let stopped : RunsOnly none (set rq.tasks c (kill t)) =
        RunsOnly-stop c rq.tasks (kill t) (rw now at v.only) (λ k. cc) in
      (
        record rq { tasks = set rq.tasks c (kill t) },
        ground arith,
        record {
          only = λ i u f r. ground (arith, stopped i u f r);
          inside = λ d k. omega (arith, length-set rq.tasks c (kill t), v.inside d k);
        },
      )
]
