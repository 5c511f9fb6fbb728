-- ===== src/Sched/Exec.antt =====
-- The server of early closures: jotunheimkernel/src/sched/exec.rs. `heapless::Deque` is of another crate
-- and stands here as an interface. A closure is its type, by code and size, and the bytes that it captures.
pub mod Order
mod Examples
use jotunheim.Prelude.{
  ℕ, zero, suc, ◌+◌, ◌-◌, ◌≤◌, ◌<◌, ◌≡◌, ◌⊎◌, Option, none, some, List, [], ◌∷◌, ◌++◌, ltb,
  if◌then◌else◌, ◌>>=◌,
}
use jotunheim.Prelude.Lists.{length, replicate}
use jotunheim.Sched.{RunQueue, Entry, spawn_kthread}

-- `Deque<A, cap>`: `to_list` has the front first.
pub record Deque (A : Type 0) (cap : ℕ) : Type 1 where
  pub Carrier : Type 0
  pub empty : Carrier
  pub to_list : Carrier → List A
  pub push_back : Carrier → A → Option Carrier
  pub pop_front : Carrier → Option (A × Carrier)
  pub to_list-empty : to_list empty ≡ []
  pub push_room :
      (q : Carrier) (a : A)
      → length (to_list q) < cap
      → (q' : Carrier) × (push_back q a ≡ some q') × (to_list q' ≡ to_list q ++ a ∷ [])
  pub push_full : (q : Carrier) (a : A) → cap ≤ length (to_list q) → push_back q a ≡ none
  pub pop_items :
      (q : Carrier)
      → ((to_list q ≡ []) × (pop_front q ≡ none))
        ⊎ ((a : A) × (q' : Carrier) × (to_list q ≡ a ∷ to_list q') × (pop_front q ≡ some (a, q')))

abbrev pub queue_capacity : ℕ
queue_capacity = 64

abbrev pub slot_size : ℕ
slot_size = 128

-- The type `F` of a closure: its code, and `size_of::<F>()`.
pub record Kind : Type 0 where
  pub code : ℕ
  pub size : ℕ

pub record Closure : Type 0 where
  pub kind : Kind
  pub captured : List ℕ

pub record Slot : Type 0 where
  pub call : Kind
  pub drop_in_place : Kind
  pub buf : List ℕ

abbrev pub take : ℕ → List ℕ → List ℕ
take zero xs = []
take (suc n) [] = []
take (suc n) (x ∷ xs) = x ∷ take n xs

-- `slot_call::<F>`: the closure that it reads and runs.
unfoldable pub slot_call : Kind → List ℕ → Closure
slot_call k p = record { kind = k; captured = take k.size p }

unfoldable pub invoke_and_forget : Slot → Closure
unfolding slot_call
invoke_and_forget s = slot_call s.call s.buf

unfoldable pub into_slot : Closure → Option Slot
into_slot f =
    if ltb slot_size f.kind.size
    then none
    else some (record {
      call = f.kind;
      drop_in_place = f.kind;
      buf = f.captured ++ replicate (slot_size - length f.captured) 0;
    })

module _ (dq : Deque Slot queue_capacity) where
  open dq use {Carrier, push_back, pop_front, to_list}

  -- `none` is `Err(())`.
  unfoldable pub submit : Closure → Carrier → Option Carrier
  submit f q = into_slot f >>= λ slot. push_back q slot

  -- The queue, the scheduler's run queue, and the boxed closures that were handed to threads, each with
  -- its thread's identity, the oldest first; when a thread runs is the scheduler's. `stacks` is where the
  -- stacks of later threads lie.
  pub record Server : Type 0 where
    pub queue : Carrier
    pub run_queue : RunQueue
    pub spawned : List (ℕ × Closure)

  unfoldable pub spawn_slot : Entry → ℕ → Slot → Carrier → Server → Server
  spawn_slot e stack slot queue s =
      let (id, rq) = spawn_kthread e stack s.run_queue in
      record {
        queue = queue;
        run_queue = rq;
        spawned = s.spawned ++ (id, invoke_and_forget slot) ∷ [];
      }

  -- The inner loop of `server_main`, and what it leaves; `none`: the fuel ran out.
  unfoldable pub drain_loop : ℕ → Entry → (ℕ → ℕ) → Server → Option Server
  drain_loop zero e stacks s = none
  drain_loop (suc fuel) e stacks s = elim (pop_front s.queue) [
    | none ↦ some s
    | some (slot, queue) ↦
        drain_loop fuel e (λ n. stacks (suc n)) (spawn_slot e (stacks zero) slot queue s)
  ]

  -- A queue of some slots takes as many rounds and one more.
  unfoldable pub drain : Entry → (ℕ → ℕ) → Server → Option Server
  drain e stacks s = drain_loop (suc (length (to_list s.queue))) e stacks s
