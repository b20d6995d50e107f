-- ===== src/Rtx/Semaphore/Laws.antt =====
-- The tokens of a semaphore and the tasks that wait for them.
use remotus_hardware.Base.{
  ℕ, ◌≤◌, ◌<◌, ◌^◌, ◌≡◌, refl, ◌∙◌, List, ◌∷◌, ◌++◌, if◌then◌else◌, arith, count, some, length, ltb,
  not_eq, count_self,
}
use remotus_hardware.Rtx.Block.{Store, os_rdy, os_dly}
use remotus_hardware.Rtx.Block.State
use remotus_hardware.Rtx.Block.Rc
use remotus_hardware.Rtx.PrioList.Laws.{IsChain, IsChain-Same, insert, head_differs}
use remotus_hardware.Rtx.PrioList.Order.{not_in}
use remotus_hardware.Rtx.DelayList.Links.{IsDelay, insert_time}
use remotus_hardware.Rtx.Kernel.{Kernel, ret_val}
use remotus_hardware.Rtx.Task.Ready.{IsReady, IsReady-agree}
use remotus_hardware.Rtx.Task.Schedule.{dispatch-Runs, second_differs, none_but}
use remotus_hardware.Rtx.Waiting.Laws.{take_first_lem}
use remotus_hardware.Rtx.Waiting.Block.{
  CanWait, wait_block, right_once, left_apart, right_apart, self_once,
}
use remotus_hardware.Rtx.Semaphore.{sem_wait, sem_send}

-- rt_sem_wait with no token, a timeout of 1 to 0xffff and more rounds than the lists have tasks, when
-- a task is ready, all tasks and heads in play are different and the task that calls is not delayed:
-- the result is OS_R_TMO, the first ready task runs, the others stay ready in order, the task that
-- called is on the list of the semaphore, behind those of its priority and above, and on the list of
-- delays unless the timeout is 0xffff. No priority changes.
pub sem_wait-blocks :
    (fuel : ℕ) (k : Kernel) (p timeout t : ℕ) (ts ws : List ℕ) (ds : List (ℕ × ℕ))
    → length ws < fuel
    → length ds < fuel
    → 0 < timeout
    → timeout < 2 ^ 16
    → k.tokens p ≡ 0
    → CanWait k p t ts ws ds
    → (s : Store) × (sem_wait fuel k p timeout
        ≡ some (Rc.tmo, record k { new_tsk = t; blocks = s }))
      × IsReady s t ts
      × IsChain s p (insert k.blocks k.run ws)
      × IsDelay s os_dly 0 (if ltb timeout 0xffff then insert_time k.run timeout ds else ds)
      × ((x : ℕ) → (s x).prio ≡ (k.blocks x).prio)
unfolding sem_wait
sem_wait-blocks fuel k p timeout t ts ws ds enough enough_d timed small none_left w =
    let (s1, s, ran, blocked, r, chain, listed, prios) =
      wait_block fuel k p timeout State.wait_sem t ts ws ds enough enough_d timed small w in
    (s, rw (none_left, not_eq timeout 0 (omega arith), ran, blocked) refl, r, chain, listed, prios)

-- rt_sem_send with tasks waiting, with more rounds than tasks are ready; the tasks that wait, the
-- running one and the ready ones are all different, and no ready one has a higher priority than the
-- running one. The first that waits is off the list and finds 1 in R0, the count of tokens stays,
-- and of all tasks that can run one of the highest priority runs; the others are on the ready list
-- in order. No priority changes.
pub sem_send-wakes :
    (fuel : ℕ) (k : Kernel) (p w : ℕ) (ts ws : List ℕ)
    → length ts < fuel
    → k.new_tsk ≡ k.run
    → IsReady k.blocks k.run ts
    → IsChain k.blocks p (w ∷ ws)
    → ((x : ℕ) → count x ((os_rdy ∷ k.run ∷ ts) ++ (w ∷ p ∷ ws)) ≤ 1)
    → (run : ℕ) × (s : Store) × (sem_send fuel k p
        ≡ some (Rc.ok, record (ret_val k w 1) { new_tsk = run; blocks = s }))
      × ((ts' : List ℕ) × IsReady s run ts'
          × ((x : ℕ) → count x (run ∷ ts') ≡ count x (w ∷ k.run ∷ ts)))
      × IsChain s p ws
      × ((x : ℕ) → (s x).prio ≡ (k.blocks x).prio)
unfolding sem_send ret_val
sem_send-wakes fuel k p w ts ws enough none_new r (link, some_w, c) once =
    let xs = os_rdy ∷ k.run ∷ ts in
    let ys = w ∷ p ∷ ws in
    let (s1, taken, chain, prios, links) =
      take_first_lem k (λ k1 task. ret_val k1 task 1) p w ws (λ k1 s t. refl)
        (λ x. omega (arith, right_once xs ys once x)) (link, some_w, c) in
    let k1 : Kernel = record (ret_val k w 1) { blocks = s1 } in
    let (run, s, ran, ready, same, same_prio) =
      dispatch-Runs fuel k1 w ts enough none_new
        (IsReady-agree k.blocks s1 k.run ts prios
          (λ x l.
            let none_of = left_apart xs ys once x (omega (arith, l)) in
            links x (second_differs x w p ws none_of) (head_differs x w (p ∷ ws) none_of))
          r)
        (right_apart xs ys once w (count_self w (p ∷ ws))) some_w in
    (
      run,
      s,
      rw (link, not_eq w 0 (omega arith), taken) (rw ran refl),
      ready,
      IsChain-Same s1 s p ws
          (λ x l. same x (
            none_but x os_rdy w (k.run ∷ ts) (right_apart xs ys once x (omega (arith, l)))
              (not_in x w (p ∷ ws) (self_once w (p ∷ ws) (right_once xs ys once w)) l)))
          chain,
      (λ x. same_prio x ∙ prios x),
    )
