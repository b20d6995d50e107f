-- ===== src/Rtx/Task.antt =====
-- mbed-rtos/rtx/TARGET_CORTEX_M/rt_Task.c: which task runs.
-- `fuel` is the number of rounds that a search of a list is given.
pub mod Ready
pub mod Schedule
pub mod Yield
pub mod Blocking
mod Tests
use remotus_hardware.Base.{
  ℕ, zero, suc, ◌+◌, ◌-◌, ◌||◌, Option, none, some, ◌>>=◌, ◌==◌, ltb, if◌then◌else◌,
}
use remotus_hardware.Rtx.Block.{Block, modify, set_state, set_prio, os_rdy}
use remotus_hardware.Rtx.Block.State
use remotus_hardware.Rtx.Block.CbType
use remotus_hardware.Rtx.Block.Rc
use remotus_hardware.Rtx.PrioList.{
  put_prio, get_first, put_rdy_first, get_same_rdy_prio, resort_prio,
}
use remotus_hardware.Rtx.DelayList.{put_dly}
use remotus_hardware.Rtx.Kernel.{Kernel}

-- the loop of rt_get_TID, over the indices from `tid - 1` on
tid_from : ℕ → (ℕ → ℕ) → ℕ → ℕ
tid_from zero active tid = 0
tid_from (suc left) active tid =
    let rest = tid_from left active (tid + 1) in if active (tid - 1) == 0 then tid else rest

pub get_tid : Kernel → ℕ
unfolding tid_from
get_tid k = tid_from k.max_tasks k.active 1

-- The general part of the control block; rt_init_stack writes to the stack of the task.
pub init_context : Kernel → ℕ → ℕ → Kernel
init_context k p_tcb priority = record k {
  blocks = modify k.blocks p_tcb (λ b. record b {
    cb_type = CbType.tcb;
    state = State.ready;
    prio = priority;
    p_lnk = 0;
    p_rlnk = 0;
    p_dlnk = 0;
    p_blnk = 0;
    delta_time = 0;
    interval_time = 0;
    events = 0;
    waits = 0;
  });
}

pub switch_req : Kernel → ℕ → Option Kernel
switch_req k p_new =
    if p_new == 0
    then none
    else some (record k { new_tsk = p_new; blocks = set_state k.blocks p_new State.running })

-- `rt_get_first (&os_rdy)` and `rt_switch_req` of the task
pub switch_first : Kernel → Option Kernel
switch_first k = do
  (next, blocks) ← get_first k.blocks os_rdy
  switch_req (record k { blocks = blocks }) next

-- The priority of the first ready task, read through os_rdy.p_lnk.
unfoldable pub rdy_prio : Kernel → Option ℕ
rdy_prio k =
    let first = (k.blocks os_rdy).p_lnk in if first == 0 then none else some (k.blocks first).prio

pub tsk_self : Kernel → ℕ
tsk_self k = if k.run == 0 then 0 else (k.blocks k.run).task_id

module _ (fuel : ℕ) where
  -- `rt_put_prio (&os_rdy, task)` and the state READY
  pub make_ready : Kernel → ℕ → Option Kernel
  make_ready k task = do
    blocks ← put_prio fuel k.blocks os_rdy task
    some (record k { blocks = set_state blocks task State.ready })

  -- the second branch of rt_dispatch
  pub dispatch_task : Kernel → ℕ → Option Kernel
  dispatch_task k next =
      if ltb (k.blocks k.run).prio (k.blocks next).prio
      then switch_req
          (record k { blocks = set_state (put_rdy_first k.blocks k.run) k.run State.ready }) next
      else (put_prio fuel (set_state k.blocks next State.ready) os_rdy next >>= λ blocks.
          some (record k { blocks = blocks }))

  pub dispatch : Kernel → ℕ → Option Kernel
  dispatch k next = if next == 0 then switch_first k else dispatch_task k next

  pub block : Kernel → ℕ → ℕ → Option Kernel
  block k timeout block_state = if timeout == 0 then some k else (do
    blocks ← (if ltb timeout 0xffff then put_dly fuel k.blocks k.run timeout else some k.blocks)
    switch_first (record k { blocks = set_state blocks k.run block_state }))

  pub tsk_pass : Kernel → Option Kernel
  tsk_pass k = do
    (next, blocks) ← get_same_rdy_prio k.blocks k.run
    if next == 0
        then some (record k { blocks = blocks })
        else (make_ready (record k { blocks = blocks }) k.run >>= λ k1. switch_req k1 next)

  -- `if (rt_rdy_prio() > prio)`: the running task goes back to the ready list.
  pub yield_above : Kernel → ℕ → Option Kernel
  yield_above k prio = do
    highest ← rdy_prio k
    if ltb prio highest then (make_ready k k.run >>= λ k1. dispatch k1 0) else some k

  -- the rest of rt_tsk_prio for a task that is not running
  pub change_prio : Kernel → ℕ → Option Kernel
  change_prio k p_task = do
    blocks ← resort_prio fuel k.blocks p_task
    let k1 = record k { blocks = blocks }
    if (blocks p_task).state == State.ready
        then (do
          (first, blocks2) ← get_first blocks os_rdy
          dispatch (record k1 { blocks = blocks2 }) first)
        else some k1

  pub tsk_prio : Kernel → ℕ → ℕ → Option (ℕ × Kernel)
  tsk_prio k task_id new_prio =
      let p_task = k.active (task_id - 1) in
      let own = record k { blocks = set_prio k.blocks k.run new_prio } in
      let other = record k { blocks = set_prio k.blocks p_task new_prio } in
      if task_id == 0
      then (yield_above own new_prio >>= λ k1. some (Rc.ok, k1))
      else if ltb k.max_tasks task_id || (p_task == 0)
      then some (Rc.nok, k)
      else if p_task == k.run
      then (yield_above other new_prio >>= λ k1. some (Rc.ok, k1))
      else (change_prio other p_task >>= λ k1. some (Rc.ok, k1))
