-- ===== src/Sched/Exec/Examples.antt =====
-- A bounded list as the queue of `exec.rs`, and the theorems on it.
use jotunheim.Prelude.{
  ℕ, ◌≤◌, ◌<◌, ◌≡◌, refl, ◌⊎◌, inl, inr, Option, none, some, List, [], ◌∷◌, ◌++◌, arith, ltb,
  if◌then◌else◌,
}
use jotunheim.Prelude.Lists.{length, replicate}
use jotunheim.Sched.{empty_queue}
use jotunheim.Sched.Exec.{Deque, queue_capacity, Closure, Slot, Server, drain}
use jotunheim.Sched.Exec.Order.{waiting, Drained, drain_all}

module _ {A : Type 0} (cap : ℕ) where
  abbrev list_push : List A → A → Option (List A)
  list_push q a = if ltb (length q) cap then some (q ++ a ∷ []) else none

  abbrev list_pop : List A → Option (A × List A)
  list_pop [] = none
  list_pop (a ∷ q) = some (a, q)

  list_push_room :
      (q : List A) (a : A)
      → length q < cap
      → (q' : List A) × (list_push q a ≡ some q') × (q' ≡ q ++ a ∷ [])
  list_push_room q a h = (q ++ a ∷ [], ground arith, refl)

  list_push_full : (q : List A) (a : A) → cap ≤ length q → list_push q a ≡ none
  list_push_full q a h = ground arith

  list_pop_items :
      (q : List A)
      → ((q ≡ []) × (list_pop q ≡ none))
        ⊎ ((a : A) × (q' : List A) × (q ≡ a ∷ q') × (list_pop q ≡ some (a, q')))
  list_pop_items [] = inl (refl, refl)
  list_pop_items (a ∷ q) = inr (a, q, refl, refl)

abbrev slots : Deque Slot queue_capacity
slots = record {
  Carrier = List Slot;
  empty = [];
  to_list = λ q. q;
  push_back = list_push queue_capacity;
  pop_front = list_pop queue_capacity;
  to_list-empty = refl;
  push_room = list_push_room queue_capacity;
  push_full = list_push_full queue_capacity;
  pop_items = list_pop_items queue_capacity;
}

abbrev closure : Closure
closure = record { kind = record { code = 0x1000; size = 2 }; captured = 7 ∷ 9 ∷ [] }

abbrev slot : Slot
slot = record {
  call = record { code = 0x1000; size = 2 };
  drop_in_place = record { code = 0x1000; size = 2 };
  buf = 7 ∷ 9 ∷ replicate 126 0;
}

abbrev at_start : Server slots
at_start = record { queue = []; run_queue = empty_queue; spawned = [] }

drain_all_example :
    (s' : Server slots) × (drain slots
        (record { trampoline = 0x2000; kernel_cs = 8 })
        (λ n. 0x10_0000)
        (record at_start { queue = slot ∷ [] })
      ≡ some s')
    × Drained slots
        (record at_start { queue = slot ∷ [] })
        (waiting slots (record at_start { queue = slot ∷ [] }))
        s'
drain_all_example =
    drain_all slots (record { trampoline = 0x2000; kernel_cs = 8 }) (λ n. 0x10_0000)
      (record at_start { queue = slot ∷ [] })
