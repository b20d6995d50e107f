-- ===== src/Rtx/Waiting.antt =====
-- mbed-rtos/rtx/TARGET_CORTEX_M: what rt_Semaphore.c, rt_Mutex.c and rt_Mailbox.c do alike with the
-- tasks that wait at an object.
pub mod Laws
pub mod Block
use remotus_hardware.Base.{ℕ, zero, suc, ◌||◌, Option, none, some, ◌>>=◌, ◌==◌, ltb, if◌then◌else◌}
use remotus_hardware.Rtx.Block.{Store, set_lnk, set_rlnk, set_state, os_rdy}
use remotus_hardware.Rtx.Block.State
use remotus_hardware.Rtx.PrioList.{put_prio, get_first}
use remotus_hardware.Rtx.DelayList.{rmv_dly}
use remotus_hardware.Rtx.Kernel.{Kernel, ret_val}
use remotus_hardware.Rtx.Task.{make_ready, dispatch, block}

-- The first waiting task, with what it finds in R0; it is off the delay list.
pub take_first : Kernel → ℕ → (Kernel → ℕ → Kernel) → Option (ℕ × Kernel)
take_first k p_cb result = do
  (task, blocks) ← get_first k.blocks p_cb
  let k1 = result (record k { blocks = blocks }) task
  some (task, record k1 { blocks = rmv_dly k1.blocks task })

module _ (fuel : ℕ) where
  -- The running task goes on the list of the object `p_cb`.
  pub wait_at : Store → ℕ → ℕ → Option Store
  wait_at s p_cb run =
      if (s p_cb).p_lnk == 0
      then some (set_rlnk (set_lnk (set_lnk s p_cb run) run 0) run p_cb)
      else put_prio fuel s p_cb run

  -- The loop of the delete functions: all tasks that wait become ready.
  pub wake_all : ℕ → Kernel → ℕ → Option Kernel
  wake_all zero k p_cb = none
  wake_all (suc rounds) k p_cb =
      let rest = λ (k1 : Kernel). wake_all rounds k1 p_cb in
      if (k.blocks p_cb).p_lnk == 0
      then some k
      else (take_first k p_cb (λ k1 task. ret_val k1 task 0) >>= λ (task, k1).
          (make_ready fuel k1 task >>= rest))

  -- `if (os_rdy.p_lnk && (os_rdy.p_lnk->prio > os_tsk.run->prio))`
  pub preempt : Kernel → Option Kernel
  preempt k =
      let first = (k.blocks os_rdy).p_lnk in
      if first == 0
      then some k
      else if ltb (k.blocks k.run).prio (k.blocks first).prio
      then (make_ready fuel k k.run >>= λ k1. dispatch fuel k1 0)
      else some k
