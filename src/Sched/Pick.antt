-- ===== src/Sched/Pick.antt =====
-- `pick_next` chooses a ready task, the first one in turn after the current task.
use native.Mathlib.Nat.{mod_self, mod-eq_of_lt, mod-lt}
use jotunheim.Prelude.{
  ℕ, zero, suc, ◌+◌, ◌-◌, ◌%◌, ◌≤◌, ◌<◌, ◌≡◌, refl, ◌⊎◌, inl, inr, Bool, true, false, not, ◌&&◌,
  Option, none, some, List, [], ◌∷◌, arith, ltb, ◌==◌, if◌then◌else◌, Bool-cases, Option-cases,
}
use jotunheim.Prelude.Lists.{length}
use jotunheim.Sched.{
  Task, RunQueue, is_ready, ready_at, pick_after, pick_first, search_from, pick_next,
}

-- A task other than the current one that is ready.
abbrev pub eligible : List Task → ℕ → ℕ → Bool
eligible tasks current i = not (i == current) && ready_at tasks i

-- The `j`-th index after `start`, round the `n` tasks.
abbrev pub turn : ℕ → ℕ → ℕ → ℕ
turn n start j = if ltb (start + j) n then start + j else start + j - n

next_index : (i n : ℕ) → i < n → (i + 1) % n ≡ (if i + 1 == n then 0 else i + 1)
next_index i n h = elim (Bool-cases (i + 1 == n)) [
  | inl last ↦ let e : i + 1 ≡ n = ground arith in rw (last, e) (mod_self n)
  | inr more ↦ rw more (mod-eq_of_lt (ground arith))
]

next_turn : (n start j : ℕ) → start < n → j < n → (turn n start j + 1) % n ≡ turn n start (suc j)
next_turn n start j h k = ground (arith, next_index (turn n start j) n)

-- The search from the `j`-th task on ends at the first eligible task, or finds that there is none.
abbrev pub FirstEligible : List Task → ℕ → ℕ → ℕ → Option ℕ → Type 0
FirstEligible tasks current start j r =
    ((k : ℕ) × (j ≤ k)
      × (k < length tasks)
      × (r ≡ some (turn (length tasks) start k))
      × (eligible tasks current (turn (length tasks) start k) ≡ true)
      × ((m : ℕ) → j ≤ m → m < k → eligible tasks current (turn (length tasks) start m) ≡ false))
    ⊎ ((r ≡ none)
        × ((m : ℕ)
            → j ≤ m
            → m < length tasks
            → eligible tasks current (turn (length tasks) start m) ≡ false))

false_from :
    (p : ℕ → Bool) (j m : ℕ) → p j ≡ false → j ≤ m → (suc j ≤ m → p m ≡ false) → p m ≡ false
false_from p j m here h later = elim (Bool-cases (m == j)) [
  | inl same ↦ let e : j ≡ m = ground arith in rw e at here
  | inr other ↦ later (ground arith)
]

FirstEligible-later :
    (tasks : List Task) (current start j : ℕ) (r : Option ℕ)
    → eligible tasks current (turn (length tasks) start j) ≡ false
    → FirstEligible tasks current start (suc j) r
    → FirstEligible tasks current start j r
FirstEligible-later tasks current start j r not_here (inl (k, lo, hi, e, found, before)) = inl (
  k,
  omega arith,
  hi,
  e,
  found,
  λ m p q.
      false_from (λ x. eligible tasks current (turn (length tasks) start x)) j m not_here p
        (λ p'. before m p' q),
)
FirstEligible-later tasks current start j r not_here (inr (e, none_left)) = inr (
  e,
  λ m p q.
      false_from (λ x. eligible tasks current (turn (length tasks) start x)) j m not_here p
        (λ p'. none_left m p' q),
)

pick_after-FirstEligible :
    (fuel j : ℕ) (tasks : List Task) (current start : ℕ)
    → start < length tasks
    → fuel + j ≡ length tasks
    → FirstEligible tasks current start j
        (pick_after fuel tasks current start (turn (length tasks) start j))
unfolding pick_after
pick_after-FirstEligible zero j tasks current start h e = inr (refl, λ m p q. absurd (omega arith))
pick_after-FirstEligible (suc fuel) j tasks current start h e =
    elim (Bool-cases (eligible tasks current (turn (length tasks) start j))) [
      | inl here ↦ inl (j, omega arith, omega arith, rw here, here, (λ m p q. absurd (omega arith)))
      | inr not_here ↦ elim (Bool-cases (turn (length tasks) start (suc j) == start)) [
        | inl round ↦
            let last : suc j ≡ length tasks = ground arith in
            inr (
              rw (not_here, next_turn (length tasks) start j h (omega arith), round) refl,
              λ m p q. let same : j ≡ m = omega arith in rw same at not_here,
            )
        | inr more ↦
            rw (not_here, next_turn (length tasks) start j h (omega arith), more)
              (FirstEligible-later tasks current start j _ not_here
                (pick_after-FirstEligible fuel (suc j) tasks current start h (omega arith)))
      ]
    ]

-- With a task that runs, `pick_next` gives the first other task that is ready, in turn after the
-- current one; with no other it gives the first task of all, if that is ready, and else none.
pub pick_next-FirstEligible :
    (rq : RunQueue) (current : ℕ)
    → rq.current ≡ some current
    → current < length rq.tasks
    → let start = (current + 1) % length rq.tasks in
      (r : Option ℕ) × FirstEligible rq.tasks current start 0 r
      × (pick_next rq
          ≡ elim r [ some i ↦ some i | none ↦ if ready_at rq.tasks 0 then some 0 else none ])
unfolding pick_next
pick_next-FirstEligible rq current e h =
    let start : ℕ = (current + 1) % length rq.tasks in
    let inside : start < length rq.tasks = mod-lt _ (omega arith) in
    let nonempty : (length rq.tasks == 0) ≡ false = ground arith in
    let at_start : turn (length rq.tasks) start 0 ≡ start = ground arith in
    (
      pick_after (length rq.tasks) rq.tasks current start start,
      rw at_start at (
          pick_after-FirstEligible (length rq.tasks) 0 rq.tasks current start inside (omega arith)),
      rw (e, nonempty),
    )

pick_after-ready_at :
    (fuel : ℕ) (tasks : List Task) (current start i j : ℕ)
    → pick_after fuel tasks current start i ≡ some j
    → ready_at tasks j ≡ true
unfolding pick_after
pick_after-ready_at zero tasks current start i j e = cc
pick_after-ready_at (suc fuel) tasks current start i j e =
    ground (arith, pick_after-ready_at fuel tasks current start ((i + 1) % length tasks) j)

pick_first-ready_at :
    (i j : ℕ) (tasks : List Task)
    → pick_first i tasks ≡ some j
    → (k : ℕ) × (j ≡ i + k) × (ready_at tasks k ≡ true)
unfolding pick_first
pick_first-ready_at i j [] e = cc
pick_first-ready_at i j (t ∷ ts) e = elim (Bool-cases (is_ready t.state)) [
  | inl here ↦ (0, ground arith, here)
  | inr later ↦
      let (k, at, found) = pick_first-ready_at (suc i) j ts (ground arith) in
      (suc k, omega arith, found)
]

search_from-ready_at :
    (tasks : List Task) (current : Option ℕ) (i : ℕ)
    → search_from tasks current ≡ some i
    → ready_at tasks i ≡ true
search_from-ready_at tasks none i e =
    let (k, at, found) = pick_first-ready_at 0 i tasks e in
    let same : k ≡ i = omega arith in rw same at found
search_from-ready_at tasks (some current) i e = pick_after-ready_at _ tasks current _ _ i e

-- What is picked is ready.
pub pick_next-ready_at :
    (rq : RunQueue) (i : ℕ) → pick_next rq ≡ some i → ready_at rq.tasks i ≡ true
unfolding pick_next
pick_next-ready_at rq i e = elim (Option-cases (search_from rq.tasks rq.current)) [
  | inl none_found ↦ ground arith
  | inr (j, found) ↦ ground (arith, search_from-ready_at rq.tasks rq.current j found)
]
