-- ===== src/Rtx/Waiting/Block.antt =====
-- A call in which the running task waits at an object: wait_at, then rt_block.
use remotus_hardware.Base.{
  ℕ, ◌≤◌, ◌<◌, ◌^◌, ◌≡◌, ◌∙◌, List, ◌∷◌, ◌++◌, if◌then◌else◌, arith, count, some, length, ltb,
  count-append, count_self,
}
use remotus_hardware.Rtx.Block.{Store, os_rdy, os_dly}
use remotus_hardware.Rtx.PrioList.Laws.{IsChain, IsChain-Same, insert, head_differs, tail_differs}
use remotus_hardware.Rtx.PrioList.Order.{IsOrdered, IsOrdered-same, count-insert}
use remotus_hardware.Rtx.DelayList.Links.{tasks, IsDelay, IsDelay-same, insert_time}
use remotus_hardware.Rtx.Kernel.{Kernel}
use remotus_hardware.Rtx.Task.{block}
use remotus_hardware.Rtx.Task.Ready.{IsReady}
use remotus_hardware.Rtx.Task.Blocking.{block_lem}
use remotus_hardware.Rtx.Waiting.{wait_at}
use remotus_hardware.Rtx.Waiting.Laws.{wait_at_lem}

-- Before the call the tasks `t` and `ts` are ready in order, `ws` wait at the object `p`, and `ds`
-- are delayed; the running task, the heads and the tasks that are ready or wait here are all
-- different, and the running task is not delayed.
pub record CanWait (k : Kernel) (p t : ℕ) (ts ws : List ℕ) (ds : List (ℕ × ℕ)) : Type 0 where
  pub ready : IsChain k.blocks os_rdy (t ∷ ts)
  pub ordered : IsOrdered k.blocks (t ∷ ts)
  pub waiting : IsChain k.blocks p ws
  pub delays : IsDelay k.blocks os_dly 0 ds
  pub once : (x : ℕ) → count x ((os_rdy ∷ t ∷ ts) ++ (k.run ∷ p ∷ ws)) ≤ 1
  pub once_delayed : (x : ℕ) → count x (k.run ∷ os_dly ∷ tasks ds) ≤ 1
  pub some_run : 0 < k.run

-- After the call the first ready task runs, the others stay ready in order, the task that ran is on
-- the list of the object by its priority, and on the list of delays unless its timeout is 0xffff.
-- Nothing else of the kernel changes, and no priority.
abbrev pub Waits : ℕ → Kernel → ℕ → ℕ → ℕ → ℕ → List ℕ → List ℕ → List (ℕ × ℕ) → Type 0
Waits fuel k p timeout block_state t ts ws ds =
    (s1 : Store) × (s : Store) × (wait_at fuel k.blocks p k.run ≡ some s1)
    × (block fuel (record k { blocks = s1 }) timeout block_state
        ≡ some (record k { new_tsk = t; blocks = s }))
    × IsReady s t ts
    × IsChain s p (insert k.blocks k.run ws)
    × IsDelay s os_dly 0 (if ltb timeout 0xffff then insert_time k.run timeout ds else ds)
    × ((x : ℕ) → (s x).prio ≡ (k.blocks x).prio)

module _ (xs ys : List ℕ) (once : (x : ℕ) → count x (xs ++ ys) ≤ 1) where
  pub left_once : (x : ℕ) → count x xs ≤ 1
  left_once x = omega (arith, once x, count-append x xs ys)

  pub right_once : (x : ℕ) → count x ys ≤ 1
  right_once x = omega (arith, once x, count-append x xs ys)

  pub right_apart : (x : ℕ) → 0 < count x ys → count x xs ≡ 0
  right_apart x k = omega (arith, once x, count-append x xs ys)

  pub left_apart : (x : ℕ) → 0 < count x xs → count x ys ≡ 0
  left_apart x k = omega (arith, once x, count-append x xs ys)

pub self_once : (x : ℕ) (xs : List ℕ) → count x (x ∷ xs) ≤ 1 → count x xs ≡ 0
self_once x xs h = grind (arith, count_self x xs)

pub wait_block :
    (fuel : ℕ) (k : Kernel) (p timeout block_state t : ℕ) (ts ws : List ℕ) (ds : List (ℕ × ℕ))
    → length ws < fuel
    → length ds < fuel
    → 0 < timeout
    → timeout < 2 ^ 16
    → CanWait k p t ts ws ds
    → Waits fuel k p timeout block_state t ts ws ds
wait_block fuel k p timeout block_state t ts ws ds enough enough_d timed small w =
    let xs = os_rdy ∷ t ∷ ts in
    let ys = k.run ∷ p ∷ ws in
    let ys_once = right_once xs ys w.once in
    let (s1, ran, chain, prios, links, delays) =
      wait_at_lem fuel k.blocks p k.run ws enough w.some_run
        (self_once k.run (p ∷ ws) (ys_once k.run)) (λ x. omega (arith, ys_once x)) w.waiting in
    let k1 : Kernel = record k { blocks = s1 } in
    let (s, blocked, r, listed, same, same_prio) =
      block_lem fuel k1 timeout block_state t ts ds enough_d w.some_run timed small
        (left_once xs ys w.once)
        (IsChain-Same k.blocks s1 os_rdy (t ∷ ts)
          (λ x l.
            let none_of = left_apart xs ys w.once x l in
            links x (tail_differs x k.run (p ∷ ws) none_of) (head_differs x k.run (p ∷ ws) none_of))
          w.ready)
        (IsOrdered-same k.blocks s1 (t ∷ ts) prios w.ordered)
        (self_once k.run (os_dly ∷ tasks ds) (w.once_delayed k.run))
        (λ x. omega (arith, w.once_delayed x))
        (IsDelay-same k.blocks s1 os_dly 0 ds delays w.delays) in
    (
      s1,
      s,
      ran,
      blocked,
      r,
      IsChain-Same s1 s p (insert k.blocks k.run ws)
          (λ x l.
            same x
              (right_apart xs ys w.once x (omega (arith, l, count-insert k.blocks k.run x ws))))
          chain,
      listed,
      (λ x. same_prio x ∙ prios x),
    )
