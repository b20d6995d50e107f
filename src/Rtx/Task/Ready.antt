-- ===== src/Rtx/Task/Ready.antt =====
-- The ready list against the task that runs.
use remotus_hardware.Base.{ℕ, ◌≤◌, ◌<◌, ◌≡◌, List, ◌∷◌, arith, count, ==-same, some, length}
use remotus_hardware.Rtx.Block.{Store, os_rdy}
use remotus_hardware.Rtx.PrioList.{put_prio, put_rdy_first}
use remotus_hardware.Rtx.PrioList.Laws.{IsChain, IsChain-Same, put_prio-Inserted, insert}
use remotus_hardware.Rtx.PrioList.Order.{
  IsOrdered, IsOrdered-same, put_rdy_first_lem, rdy_prio-put, extend, insert-IsOrdered,
  count-insert,
}

-- The tasks `ts` are ready, in order of priority, and none has a higher one than the task `run`, which
-- is not among them.
pub record IsReady (s : Store) (run : ℕ) (ts : List ℕ) : Type 0 where
  pub chain : IsChain s os_rdy ts
  pub once : (x : ℕ) → count x (os_rdy ∷ run ∷ ts) ≤ 1
  pub ordered : IsOrdered s ts
  pub highest : (x : ℕ) → 0 < count x ts → (s x).prio ≤ (s run).prio
  pub some_task : 0 < run

-- Another store serves as well that has the same priorities and the same links in the list.
pub IsReady-agree :
    (s s' : Store) (run : ℕ) (ts : List ℕ)
    → ((x : ℕ) → (s' x).prio ≡ (s x).prio)
    → ((x : ℕ) → 0 < count x (os_rdy ∷ ts) → (s' x).p_lnk ≡ (s x).p_lnk)
    → IsReady s run ts
    → IsReady s' run ts
IsReady-agree s s' run ts prios links r = record {
  chain = IsChain-Same s s' os_rdy ts links r.chain;
  once = r.once;
  ordered = IsOrdered-same s s' ts prios r.ordered;
  highest = λ x k. rw (prios x, prios run) (r.highest x k);
  some_task = r.some_task;
}

module _ (run : ℕ) (ts : List ℕ) (once : (x : ℕ) → count x (os_rdy ∷ run ∷ ts) ≤ 1) where
  pub run-fresh : count run (os_rdy ∷ ts) ≡ 0
  run-fresh = grind (arith, once run, ==-same run)

  pub head-fresh : count os_rdy ts ≡ 0
  head-fresh = grind (arith, once os_rdy)

  pub ready_once : (x : ℕ) → count x (os_rdy ∷ ts) ≤ 1
  ready_once x = let h = once x in grind arith

  not_ready : (x : ℕ) → count x (os_rdy ∷ run ∷ ts) ≡ 0 → count x (os_rdy ∷ ts) ≡ 0
  not_ready x fresh = omega arith

  once_more :
      (next x : ℕ) → count next (os_rdy ∷ run ∷ ts) ≡ 0 → count x (os_rdy ∷ next ∷ run ∷ ts) ≤ 1
  once_more next x fresh = let h = once x in grind arith

-- The task `run` goes back to the front, and a task of at least its priority takes over.
pub IsReady-preempt :
    (s : Store) (run next : ℕ) (ts : List ℕ)
    → IsReady s run ts
    → (s run).prio ≤ (s next).prio
    → count next (os_rdy ∷ run ∷ ts) ≡ 0
    → 0 < next
    → IsReady (put_rdy_first s run) next (run ∷ ts)
IsReady-preempt s run next ts r above fresh some_next =
    let s1 = put_rdy_first s run in
    let prios = rdy_prio-put s run in
    record {
      chain =
          put_rdy_first_lem s run ts r.some_task (run-fresh run ts r.once)
            (head-fresh run ts r.once) r.chain;
      once = λ x. once_more run ts r.once next x fresh;
      ordered = (
        (λ x k. rw (prios x, prios run) (r.highest x k)),
        IsOrdered-same s s1 ts prios r.ordered,
      );
      highest = λ x k.
          rw (prios next) (
            extend s s1 (s next).prio run ts prios above (λ y l. omega (arith, r.highest y l)) x k);
      some_task = some_next;
    }

-- A task of at most the running one's priority is put in its place.
pub IsReady-put :
    (fuel : ℕ) (s : Store) (run task : ℕ) (ts : List ℕ)
    → length ts < fuel
    → IsReady s run ts
    → (s task).prio ≤ (s run).prio
    → count task (os_rdy ∷ run ∷ ts) ≡ 0
    → 0 < task
    → (s' : Store) × (put_prio fuel s os_rdy task ≡ some s')
      × IsReady s' run (insert s task ts)
      × ((x : ℕ) → count x (os_rdy ∷ ts) ≡ 0 → ¬ (x ≡ task) → (s' x).p_lnk ≡ (s x).p_lnk)
      × ((x : ℕ) → (s' x).prio ≡ (s x).prio)
IsReady-put fuel s run task ts enough r below fresh some_next =
    let (s', ran, chain, prios, links, delays) =
      put_prio-Inserted fuel s os_rdy task ts enough some_next (not_ready run ts r.once task fresh)
        (ready_once run ts r.once) r.chain in
    (
      s',
      ran,
      record {
        chain = chain;
        once = λ x. omega (arith, count-insert s task x ts, once_more run ts r.once task x fresh);
        ordered = insert-IsOrdered s s' task ts prios r.ordered;
        highest = λ x k. rw (prios run) (
            extend s s' (s run).prio task ts prios below r.highest x
              (rw (count-insert s task x ts) at k));
        some_task = r.some_task;
      },
      links,
      prios,
    )
