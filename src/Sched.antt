-- ===== src/Sched.antt =====
-- The scheduler: jotunheimkernel/src/sched/mod.rs. `none` is a panic, at an index out of bounds. The
-- run queue is taken from behind its lock: an operation runs with interrupts off and the lock held.
pub mod Pick
pub mod Running
pub mod Reaper
pub mod Revival
pub mod Exec
mod Examples
use jotunheim.Prelude.{
  ℕ, zero, suc, ◌+◌, ◌-◌, ◌*◌, ◌%◌, Bool, true, false, not, ◌&&◌, ◌||◌, Option, none, some, List,
  [], ◌∷◌, ltb, ◌==◌, if◌then◌else◌, ◌>>=◌, bit_and,
}
use jotunheim.Prelude.Lists.{length, get_elem?, set}
use jotunheim.Prelude.Buffer.{Buffer, poke}
use jotunheim.Prelude.Words.{add64, sub64, not64}
use jotunheim.Frame.{TrapFrame, blank}

pub data TaskState : Type 0 where
  ready running dead : TaskState

pub record Task : Type 0 where
  pub id : ℕ
  pub state : TaskState
  pub time_slice : ℕ
  pub trap : TrapFrame

abbrev pub default_slice : ℕ
default_slice = 5

abbrev pub u32_max : ℕ
u32_max = 0xffff_ffff

pub record RunQueue : Type 0 where
  pub tasks : List Task
  pub current : Option ℕ
  pub next_id : ℕ
  pub need_resched : Bool

-- `RunQueue` as `with_rq_locked` creates it.
abbrev pub empty_queue : RunQueue
empty_queue = record { tasks = []; current = none; next_id = 0; need_resched = true }

-- `with_rq_locked`: the queue is created on first use.
unfoldable pub with_rq_locked {ℓ} : {A : Type ℓ} → (RunQueue → A) → Option RunQueue → A
with_rq_locked f none = f empty_queue
with_rq_locked f (some rq) = f rq

abbrev pub is_ready : TaskState → Bool
is_ready ready = true
is_ready running = false
is_ready dead = false

abbrev pub is_dead : TaskState → Bool
is_dead ready = false
is_dead running = false
is_dead dead = true

abbrev pub ready_at : List Task → ℕ → Bool
ready_at tasks i = elim (get_elem? tasks i) [ none ↦ false | some t ↦ is_ready t.state ]

-- The loop of `pick_next` from `i` round to `start`. It ends after as many rounds as there are tasks.
unfoldable pub pick_after : ℕ → List Task → ℕ → ℕ → ℕ → Option ℕ
pick_after zero tasks current start i = none
pick_after (suc fuel) tasks current start i =
    let i' = (i + 1) % length tasks in
    let rest = pick_after fuel tasks current start i' in
    if not (i == current) && ready_at tasks i then some i else if i' == start then none else rest

-- `for i in 0..n`, where no task runs yet; `i` counts the tasks passed.
unfoldable pub pick_first : ℕ → List Task → Option ℕ
pick_first i [] = none
pick_first i (t ∷ ts) = elim (is_ready t.state) [ true ↦ some i | false ↦ pick_first (suc i) ts ]

abbrev search_from : List Task → Option ℕ → Option ℕ
search_from tasks none = pick_first 0 tasks
search_from tasks (some current) =
    let start = (current + 1) % length tasks in pick_after (length tasks) tasks current start start

unfoldable pub pick_next : RunQueue → Option ℕ
pick_next rq = if length rq.tasks == 0 then none else elim (search_from rq.tasks rq.current) [
  | some i ↦ some i
  | none ↦ if ready_at rq.tasks 0 then some 0 else none
]

-- `f(&mut tasks[i])`
unfoldable pub modify : List Task → ℕ → (Task → Task) → Option (List Task)
modify tasks i f = elim (get_elem? tasks i) [ none ↦ none | some t ↦ some (set tasks i (f t)) ]

-- One tick of the running task's slice, and whether it ran out.
unfoldable pub count_down : Task → Task × Bool
count_down t =
    if not (t.time_slice == u32_max) && ltb 0 t.time_slice
    then (if t.time_slice - 1 == 0
        then (record t { time_slice = default_slice }, true)
        else (record t { time_slice = t.time_slice - 1 }, false))
    else (t, false)

-- `any(|(i, t)| i != current && t.state == Ready)`, from task `i` on.
unfoldable pub any_ready : ℕ → ℕ → List Task → Bool
any_ready current i [] = false
any_ready current i (t ∷ ts) =
    (not (i == current) && is_ready t.state) || any_ready current (suc i) ts

-- The first half of `tick`: the queue, and whether the current task must give way.
unfoldable pub charge : RunQueue → Option ℕ → Option (RunQueue × Bool)
charge rq none = some (record rq { need_resched = true }, true)
charge rq (some current) = get_elem? rq.tasks current >>= λ t.
    let (t', spent) = count_down t in
    let tasks' = set rq.tasks current t' in
    some (
      record rq { tasks = tasks'; need_resched = spent || rq.need_resched },
      t'.time_slice == u32_max && any_ready current 0 tasks',
    )

-- The current task goes back to the ready tasks, with its registers.
unfoldable pub suspend : TrapFrame → Task → Task
suspend tf t = record t {
  state = ready;
  time_slice = if t.time_slice == u32_max then t.time_slice else default_slice;
  trap = tf;
}

unfoldable pub suspend_current : RunQueue → TrapFrame → Option ℕ → Option (List Task)
suspend_current rq tf none = some rq.tasks
suspend_current rq tf (some current) = modify rq.tasks current (suspend tf)

unfoldable pub switch_to : RunQueue → TrapFrame → ℕ → Option (RunQueue × TrapFrame)
switch_to rq tf next_idx = suspend_current rq tf rq.current >>= λ tasks.
    get_elem? tasks next_idx >>= λ t. some (
      record rq {
        tasks = set tasks next_idx (record t { state = running });
        current = some next_idx;
        need_resched = false;
      },
      t.trap,
    )

-- The queue and the registers to go on with.
unfoldable pub tick : RunQueue → TrapFrame → Option (RunQueue × TrapFrame)
tick rq tf = charge rq rq.current >>= λ r.
    if not (r.0.need_resched || r.1)
    then some (r.0, tf)
    else elim (pick_next r.0) [ none ↦ some (r.0, tf) | some next_idx ↦ switch_to r.0 tf next_idx ]

-- What a new thread needs from outside: the trampoline's address and the kernel's code segment.
pub record Entry : Type 0 where
  pub trampoline : ℕ
  pub kernel_cs : ℕ

abbrev pub stack_size : ℕ
stack_size = 0x4_0000

-- Where the pair of argument and entry lies, in the stack that begins at `base`.
unfoldable pub stack_frame : ℕ → ℕ
stack_frame base = sub64 (bit_and (base + (stack_size - 1)) (not64 0xf)) 16

unfoldable pub new_task : Entry → ℕ → ℕ → Task
new_task e base id = record {
  id = id;
  state = ready;
  time_slice = default_slice;
  trap = record blank {
    rip = e.trampoline;
    rsp = stack_frame base;
    cs = e.kernel_cs;
    rflags = 0x202;
    ss = 0;
  };
}

-- The words of the new stack: the argument, and the function.
unfoldable pub push_entry : ℕ → ℕ → ℕ → Buffer → Buffer
push_entry base arg entry words =
    poke (poke words (stack_frame base) arg) (stack_frame base + 8) entry

-- The new task goes to the front, so the current one moves by one.
unfoldable pub spawn_kthread : Entry → ℕ → RunQueue → ℕ × RunQueue
spawn_kthread e base rq = (
  rq.next_id,
  record rq {
    tasks = new_task e base rq.next_id ∷ rq.tasks;
    current = elim rq.current [ none ↦ none | some current ↦ some (current + 1) ];
    next_id = add64 rq.next_id 1;
  },
)

-- The idle task, which `init` puts to the front.
unfoldable pub init_idle : Entry → ℕ → RunQueue → RunQueue
init_idle e base rq = record rq {
  tasks = new_task e base rq.next_id ∷ rq.tasks;
  next_id = add64 rq.next_id 1;
}

unfoldable pub kill : Task → Task
kill t = record t { state = dead; time_slice = default_slice * 2 }

unfoldable pub kill_current : RunQueue → Option RunQueue
kill_current rq = elim rq.current [
  | none ↦ some rq
  | some current ↦ modify rq.tasks current kill >>= λ tasks. some (record rq { tasks = tasks })
]
