-- ===== src/Sched/Revival.antt =====
-- A task that was killed while it ran is made ready again by the tick that switches away from it.
use jotunheim.Prelude.{
  ℕ, ◌<◌, ◌≡◌, ◌≢◌, refl, inl, inr, ◌||◌, some, List, arith, Bool-cases, Option-cases,
}
use jotunheim.Prelude.Lists.{length, get_elem?, lt-get_elem?, get_elem?-set, set}
use jotunheim.Frame.{TrapFrame}
use jotunheim.Sched.{
  ready, running, Task, RunQueue, pick_next, suspend, suspend_current, modify, switch_to, tick,
}
use jotunheim.Sched.Running.{Inv, charge-Inv}

switch_to_ready :
    (rq : RunQueue) (tf : TrapFrame) (c i : ℕ) (r : RunQueue × TrapFrame)
    → rq.current ≡ some c
    → c < length rq.tasks
    → i ≢ c
    → switch_to rq tf i ≡ some r
    → (t : Task) × (get_elem? r.0.tasks c ≡ some t) × (t.state ≡ ready)
unfolding switch_to suspend_current modify
switch_to_ready rq tf c i r now inside ne e =
    let (t, at) = lt-get_elem? rq.tasks c inside in
    let s : Task = suspend tf t in
    let tasks : List Task = set rq.tasks c s in
    (
      s,
      elim (Option-cases (get_elem? tasks i)) [
        | inl n ↦ ground arith
        | inr (u, picked) ↦ ground (
          arith,
          get_elem?-set rq.tasks c c s,
          get_elem?-set tasks i c (record u { state = running }),
        )
      ],
      unfold suspend in refl,
    )

switch_to-current :
    (rq : RunQueue) (tf : TrapFrame) (j : ℕ) (r : RunQueue × TrapFrame)
    → switch_to rq tf j ≡ some r
    → r.0.current ≡ some j
unfolding switch_to
switch_to-current rq tf j r e = ground arith

-- On a well-formed run queue, the tick that switches from the current task to another one makes the old
-- one ready, whatever its state was: also where `kill_current` marked it dead.
pub tick_revives :
    (rq rq' : RunQueue) (tf tf' : TrapFrame) (c i : ℕ)
    → Inv rq
    → rq.current ≡ some c
    → tick rq tf ≡ some (rq', tf')
    → rq'.current ≡ some i
    → i ≢ c
    → (t : Task) × (get_elem? rq'.tasks c ≡ some t) × (t.state ≡ ready)
unfolding tick
tick_revives rq rq' tf tf' c i v now e moved ne =
    let (r, charged, v', same) = charge-Inv rq rq.current refl v in
    let now' : r.0.current ≡ some c = ground arith in
    elim (Bool-cases (r.0.need_resched || r.1)) [
      | inr stay ↦ ground arith
      | inl move ↦ elim (Option-cases (pick_next r.0)) [
        | inl none_ready ↦ ground arith
        | inr (j, picked) ↦
            let switched : switch_to r.0 tf j ≡ some (rq', tf') = ground arith in
            switch_to_ready r.0 tf c j (rq', tf') now' (v'.inside c now')
              (λ k. ground (arith, switch_to-current r.0 tf j (rq', tf') switched)) switched
      ]
    ]
