-- ===== src/Rtx/Task/Yield.antt =====
-- Calls in which tasks become ready and the first of the ready list runs.
use remotus_hardware.Base.{
  ℕ, ◌+◌, ◌≤◌, ◌<◌, ◌≡◌, refl, ◌∙◌, List, ◌∷◌, arith, count, Option, some, ◌>>=◌, length,
  count_self, not_eq, dec_lt, lt→ltb, le→not_ltb,
}
use remotus_hardware.Rtx.Block.{Store, os_rdy, set_state}
use remotus_hardware.Rtx.Block.State
use remotus_hardware.Rtx.PrioList.Laws.{IsChain, IsChain-Same, insert, put_prio-Inserted}
use remotus_hardware.Rtx.PrioList.Order.{
  IsOrdered, IsOrdered-same, length-insert, insert-IsOrdered, extend, count-insert,
}
use remotus_hardware.Rtx.Kernel.{Kernel}
use remotus_hardware.Rtx.Task.{dispatch, make_ready, yield_above, rdy_prio}
use remotus_hardware.Rtx.Task.Ready.{run-fresh, ready_once}
use remotus_hardware.Rtx.Task.Schedule.{
  Runs, Runs-moved, inserted, dispatch-some, same_tasks, state_prio-same, state-lnk, outside,
  second_differs,
}

-- Where a task that was on no list has become ready.
abbrev pub MadeReady : Kernel → Option Kernel → ℕ → List ℕ → Type 0
MadeReady k result task ts =
    (s : Store) × (result ≡ some (record k { blocks = s }))
    × IsChain s os_rdy ts
    × IsOrdered s ts
    × ((x : ℕ) → count x (os_rdy ∷ ts) ≡ 0 → (s x).p_lnk ≡ (k.blocks x).p_lnk)
    × ((x : ℕ) → (s x).prio ≡ (k.blocks x).prio)

pub make_ready_lem :
    (fuel : ℕ) (k : Kernel) (task : ℕ) (ts : List ℕ)
    → length ts < fuel
    → 0 < task
    → ((x : ℕ) → count x (os_rdy ∷ task ∷ ts) ≤ 1)
    → IsChain k.blocks os_rdy ts
    → IsOrdered k.blocks ts
    → MadeReady k (make_ready fuel k task) task (insert k.blocks task ts)
unfolding make_ready
make_ready_lem fuel k task ts enough some_task once c ordered =
    let s = k.blocks in
    let ts' = insert s task ts in
    let (s', ran, chain, prios, links, delays) =
      put_prio-Inserted fuel s os_rdy task ts enough some_task (run-fresh task ts once)
        (ready_once task ts once) c in
    let s1 = set_state s' task State.ready in
    let same = λ (x : ℕ). state_prio-same s s' task State.ready x (prios x) in
    (
      s1,
      rw ran refl,
      IsChain-Same s' s1 os_rdy ts' (λ x l. state-lnk s' task State.ready x) chain,
      IsOrdered-same s s1 ts' same (insert-IsOrdered s s task ts (λ x. refl) ordered),
      (λ x h.
          let others = inserted x task s ts h in
          state-lnk s' task State.ready x
          ∙ links x (outside x task ts others) (second_differs x os_rdy task ts others)),
      same,
    )

-- The running task goes back to the ready list and the first of the list runs, as in rt_tsk_prio
-- and the delete functions: of all tasks one of the highest priority runs, and the others are on
-- the ready list in order. The rounds are more than the list has tasks.
pub make_ready-dispatch :
    (fuel : ℕ) (k : Kernel) (ts : List ℕ)
    → length ts < fuel
    → 0 < k.run
    → ((x : ℕ) → count x (os_rdy ∷ k.run ∷ ts) ≤ 1)
    → IsChain k.blocks os_rdy ts
    → IsOrdered k.blocks ts
    → Runs k (make_ready fuel k k.run >>= λ k1. dispatch fuel k1 0) (k.run ∷ ts)
make_ready-dispatch fuel k ts enough some_run once c ordered =
    let ts' = insert k.blocks k.run ts in
    let (s1, ran, chain, ordered1, links, prios) =
      make_ready_lem fuel k k.run ts enough some_run once c ordered in
    let k1 : Kernel = record k { blocks = s1 } in
    let sum = λ (x : ℕ). count-insert k.blocks k.run x ts in
    rw ran (
      Runs-moved k s1 (dispatch fuel k1 0) (k.run ∷ ts) (λ x h. links x (omega (arith, h, sum x)))
        prios
        (same_tasks k1 (dispatch fuel k1 0) ts' (k.run ∷ ts) sum (
          dispatch-some fuel k1 k.run ts' (rw (sum k.run) (count_self k.run ts))
            (λ x. omega (arith, once x, sum x)) chain ordered1)))

-- Two tasks become ready, first the running one, and then the first of the list runs.
pub both_ready-dispatch :
    (fuel : ℕ) (k : Kernel) (next : ℕ) (ts : List ℕ)
    → length ts + 1 < fuel
    → 0 < k.run
    → 0 < next
    → ((x : ℕ) → count x (os_rdy ∷ next ∷ k.run ∷ ts) ≤ 1)
    → IsChain k.blocks os_rdy ts
    → IsOrdered k.blocks ts
    → Runs k
        (make_ready fuel k k.run >>= λ k1. (make_ready fuel k1 next >>= λ k2. dispatch fuel k2 0))
        (next ∷ k.run ∷ ts)
both_ready-dispatch fuel k next ts enough some_run some_next once c ordered =
    let ts1 = insert k.blocks k.run ts in
    let (s1, ran1, chain1, ordered1, links1, prios1) =
      make_ready_lem fuel k k.run ts (omega arith) some_run (λ x. omega (arith, once x)) c
        ordered in
    let k1 : Kernel = record k { blocks = s1 } in
    let ts2 = insert s1 next ts1 in
    let sum1 = λ (x : ℕ). count-insert k.blocks k.run x ts in
    let sum2 = λ (x : ℕ). count-insert s1 next x ts1 in
    let (s2, ran2, chain2, ordered2, links2, prios2) =
      make_ready_lem fuel k1 next ts1 (rw (length-insert k.blocks k.run ts) (omega arith)) some_next
        (λ x. omega (arith, once x, sum1 x)) chain1 ordered1 in
    let k2 : Kernel = record k { blocks = s2 } in
    rw (ran1, ran2)
      (Runs-moved k s2 (dispatch fuel k2 0) (next ∷ k.run ∷ ts)
        (λ x h. links2 x (omega (arith, h, sum1 x, sum2 x)) ∙ links1 x (omega (arith, h, sum1 x)))
        (λ x. prios2 x ∙ prios1 x)
        (same_tasks k2 (dispatch fuel k2 0) ts2 (next ∷ k.run ∷ ts)
          (λ x. omega (arith, sum1 x, sum2 x))
          (dispatch-some fuel k2 next ts2 (rw (sum2 next) (count_self next ts1))
            (λ x. omega (arith, once x, sum1 x, sum2 x)) chain2 ordered2)))

-- The part of rt_tsk_prio for the running task, and rt_mut_release without a waiting task: the running
-- task, which has its new priority, yields if the first ready task is above it. When a task is ready,
-- all are different, none is scheduled, and the rounds are more than tasks are ready: of all tasks one
-- of the highest priority runs after the call, and the others are on the ready list in order.
pub yield_above-Runs :
    (fuel : ℕ) (k : Kernel) (t : ℕ) (ts : List ℕ)
    → length (t ∷ ts) < fuel
    → k.new_tsk ≡ k.run
    → 0 < k.run
    → ((x : ℕ) → count x (os_rdy ∷ k.run ∷ t ∷ ts) ≤ 1)
    → IsChain k.blocks os_rdy (t ∷ ts)
    → IsOrdered k.blocks (t ∷ ts)
    → Runs k (yield_above fuel k (k.blocks k.run).prio) (k.run ∷ t ∷ ts)
unfolding yield_above rdy_prio
yield_above-Runs fuel k t ts enough none_new some_run once (link, above, c) (top, ordered) =
    rw (link, not_eq t 0 (omega arith))
      (elim (dec_lt (k.blocks k.run).prio (k.blocks t).prio) [
        | yes lower ↦ rw (lt→ltb (k.blocks k.run).prio (k.blocks t).prio lower) (
            make_ready-dispatch fuel k (t ∷ ts) enough some_run once (link, above, c)
              (top, ordered))
        | no higher ↦ rw (le→not_ltb (k.blocks k.run).prio (k.blocks t).prio (omega arith)) (
          k.new_tsk,
          k.blocks,
          refl,
          (
            t ∷ ts,
            rw none_new (record {
              chain = (link, above, c);
              once = once;
              ordered = (top, ordered);
              highest = λ x l.
                  extend k.blocks k.blocks (k.blocks k.run).prio t ts (λ y. refl) (omega arith)
                    (λ y m. omega (arith, top y m)) x l;
              some_task = some_run;
            }),
            (λ x. rw none_new refl),
          ),
          (λ x h. refl),
          (λ x. refl),
        )
      ])
