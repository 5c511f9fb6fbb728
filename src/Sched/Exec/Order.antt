-- ===== src/Sched/Exec/Order.antt =====
-- No closure is lost, doubled or overtaken on its way from `submit` to the thread that it is handed to:
-- jotunheimkernel/src/sched/exec.rs.
use jotunheim.Prelude.{
  ℕ, zero, suc, ◌-◌, ◌<◌, ◌≡◌, refl, sym, ap, ◌∙◌, inl, inr, some, List, [], ◌∷◌, ◌++◌, arith,
  append-nil, append_assoc,
}
use mathlib.Core.List.{map}
use jotunheim.Prelude.Lists.{length, replicate}
use jotunheim.Sched.{Entry, RunQueue, Task, ready, new_task, spawn_kthread}
use jotunheim.Sched.Exec.{
  Deque, queue_capacity, slot_size, Closure, Slot, take, invoke_and_forget, into_slot, submit,
  Server, spawn_slot, drain_loop, drain,
}

-- The bytes of a closure are those of its type.
abbrev pub IsWhole : Closure → Type 0
IsWhole f = length f.captured ≡ f.kind.size

take-append : (xs ys : List ℕ) → take (length xs) (xs ++ ys) ≡ xs
take-append [] ys = refl
take-append (x ∷ xs) ys = ap (λ (l : List ℕ). x ∷ l) (take-append xs ys)

-- What is put into a slot is what the thread runs.
pub into_slot-invoke :
    (f : Closure) (slot : Slot) → IsWhole f → into_slot f ≡ some slot → invoke_and_forget slot ≡ f
unfolding into_slot invoke_and_forget
into_slot-invoke f slot whole e =
    ground (arith, take-append f.captured (replicate (slot_size - length f.captured) 0), whole)

module _ (dq : Deque Slot queue_capacity) where
  open dq use {to_list, pop_items, push_room, push_full}

  -- The closures that were handed to threads, and those that wait.
  abbrev pub handed_over : Server dq → List Closure
  handed_over s = map (λ (r : ℕ × Closure). r.1) s.spawned

  abbrev pub waiting : Server dq → List Closure
  waiting s = map invoke_and_forget (to_list s.queue)

  queue-spawn_slot :
      (e : Entry) (stack : ℕ) (slot : Slot) (q : dq.Carrier) (s : Server dq)
      → to_list (spawn_slot dq e stack slot q s).queue ≡ to_list q
  unfolding spawn_slot
  queue-spawn_slot e stack slot q s = refl

  -- The run queue after the threads were started one after the other, each in front of the others.
  abbrev pub StartedOn : List Task → List (ℕ × Closure) → List Task → Type 0
  StartedOn before [] after = after ≡ before
  StartedOn before ((id, f) ∷ others) after =
      (t : Task) × (t.id ≡ id) × (t.state ≡ ready) × StartedOn (t ∷ before) others after

  -- The queue is empty, and each closure of `slots` has its thread.
  abbrev pub Drained : Server dq → List Closure → Server dq → Type 0
  Drained s fs s' =
      (to_list s'.queue ≡ [])
      × (handed : List (ℕ × Closure)) × (s'.spawned ≡ s.spawned ++ handed)
      × (map (λ (r : ℕ × Closure). r.1) handed ≡ fs)
      × StartedOn s.run_queue.tasks handed s'.run_queue.tasks

  Drained-cons :
      (e : Entry) (stack : ℕ) (slot : Slot) (q : dq.Carrier) (s s' : Server dq) (fs : List Closure)
      → Drained (spawn_slot dq e stack slot q s) fs s'
      → Drained s (invoke_and_forget slot ∷ fs) s'
  unfolding spawn_slot spawn_kthread new_task
  Drained-cons e stack slot q s s' fs (clear, handed, log, closures, started_on) =
      let id = s.run_queue.next_id in
      (
        clear,
        (id, invoke_and_forget slot) ∷ handed,
        log ∙ append_assoc s.spawned ((id, invoke_and_forget slot) ∷ []) handed,
        ap (λ (l : List Closure). invoke_and_forget slot ∷ l) closures,
        (new_task e stack id, refl, refl, started_on),
      )

  drain_loop_all :
      (fuel : ℕ) (e : Entry) (stacks : ℕ → ℕ) (s : Server dq) (slots : List Slot)
      → to_list s.queue ≡ slots
      → length slots < fuel
      → (s' : Server dq) × (drain_loop dq fuel e stacks s ≡ some s')
        × Drained s (map invoke_and_forget slots) s'
  unfolding drain_loop
  drain_loop_all zero e stacks s slots items enough = absurd (omega arith)
  drain_loop_all (suc fuel) e stacks s slots items enough = elim (pop_items s.queue) [
    | inl (nothing_left, popped) ↦
        let none_left : slots ≡ [] = sym items ∙ nothing_left in
        (
          s,
          rw (popped, drain_loop) refl,
          rw none_left (nothing_left, [], sym (append-nil s.spawned), refl, refl),
        )
    | inr (slot, q, cons, popped) ↦
        let next = spawn_slot dq e (stacks zero) slot q s in
        let split : slots ≡ slot ∷ to_list q = sym items ∙ cons in
        let (s', ends, drained_next) =
          drain_loop_all fuel e (λ n. stacks (suc n)) next (to_list q)
            (queue-spawn_slot e (stacks zero) slot q s)
            (omega (arith, ap (λ (l : List Slot). length l) split)) in
        (
          s',
          rw (popped, drain_loop) ends,
          rw split (Drained-cons e (stacks zero) slot q s s' _ drained_next),
        )
  ]

  -- Draining ends, with an empty queue, and every closure that waited has been handed to a thread of its
  -- own, in the order of the queue: a ready task with the thread's identity stands in the run queue, in
  -- front of the tasks that were there and of the threads that were started before it.
  pub drain_all :
      (e : Entry) (stacks : ℕ → ℕ) (s : Server dq)
      → (s' : Server dq) × (drain dq e stacks s ≡ some s') × Drained s (waiting s) s'
  unfolding drain
  drain_all e stacks s =
      drain_loop_all (suc (length (to_list s.queue))) e stacks s (to_list s.queue) refl
        (omega arith)

  -- The server after a start, submissions and rounds of its thread, in any order, with the closures that
  -- were accepted. Threads that run in between change the run queue.
  pub data Reached : List Closure → Server dq → Type 0 where
    started :
        (rq : RunQueue) → Reached [] (record { queue = dq.empty; run_queue = rq; spawned = [] })
    accepted :
        (fs : List Closure) (s : Server dq) (f : Closure) (q : dq.Carrier)
        → Reached fs s
        → IsWhole f
        → submit dq f s.queue ≡ some q
        → Reached (fs ++ f ∷ []) (record s { queue = q })
    drained :
        (fs : List Closure) (e : Entry) (stacks : ℕ → ℕ) (s s' : Server dq)
        → Reached fs s
        → drain dq e stacks s ≡ some s'
        → Reached fs s'
    ticked :
        (fs : List Closure) (s : Server dq) (rq : RunQueue)
        → Reached fs s
        → Reached fs (record s { run_queue = rq })
