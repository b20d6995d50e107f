-- ===== src/Rtx/Semaphore.antt =====
-- mbed-rtos/rtx/TARGET_CORTEX_M/rt_Semaphore.c. A result that rt_block gives up is the one of the call;
-- a task that waits finds its own in R0.
pub mod Laws
mod Tests
use remotus_hardware.Base.{ℕ, ◌+◌, ◌-◌, Option, none, some, ◌>>=◌, ◌==◌, if◌then◌else◌}
use remotus_hardware.Rtx.Block.{modify, set_state, add16}
use remotus_hardware.Rtx.Block.State
use remotus_hardware.Rtx.Block.CbType
use remotus_hardware.Rtx.Block.Rc
use remotus_hardware.Rtx.PostQueue.{psq_enq}
use remotus_hardware.Rtx.Kernel.{Kernel, put, ret_val}
use remotus_hardware.Rtx.Task.{make_ready, dispatch, block}
use remotus_hardware.Rtx.Waiting.{wait_at, take_first, wake_all, preempt}

pub sem_init : Kernel → ℕ → ℕ → Kernel
sem_init k semaphore token_count = record k {
  blocks = modify k.blocks semaphore (λ b. record b { cb_type = CbType.scb; p_lnk = 0 });
  tokens = put k.tokens semaphore token_count;
}

-- `p_SCB->tokens++`
pub store_token : Kernel → ℕ → Kernel
store_token k semaphore = record k {
  tokens = put k.tokens semaphore (add16 (k.tokens semaphore) 1);
}

-- isr_sem_send, less rt_psh_req, which asks the processor for rt_pop_req.
pub isr_sem_send : Kernel → ℕ → Option Kernel
isr_sem_send k semaphore = psq_enq k.psq semaphore 0 >>= λ psq. some (record k { psq = psq })

module _ (fuel : ℕ) where
  pub sem_delete : Kernel → ℕ → Option (ℕ × Kernel)
  sem_delete k semaphore = do
    k1 ← wake_all fuel fuel k semaphore
    k2 ← preempt fuel k1
    some (Rc.ok, record k2 { blocks = modify k2.blocks semaphore (λ b. record b { cb_type = 0 }) })

  pub sem_send : Kernel → ℕ → Option (ℕ × Kernel)
  sem_send k semaphore =
      if (k.blocks semaphore).p_lnk == 0 then some (Rc.ok, store_token k semaphore) else (do
        (task, k1) ← take_first k semaphore (λ k1 task. ret_val k1 task 1)
        k2 ← dispatch fuel k1 task
        some (Rc.ok, k2))

  pub sem_wait : Kernel → ℕ → ℕ → Option (ℕ × Kernel)
  sem_wait k semaphore timeout =
      if k.tokens semaphore == 0
      then (if timeout == 0 then some (Rc.tmo, k) else (do
        blocks ← wait_at fuel k.blocks semaphore k.run
        k1 ← block fuel (record k { blocks = blocks }) timeout State.wait_sem
        some (Rc.tmo, k1)))
      else some (Rc.ok, record k { tokens = put k.tokens semaphore (k.tokens semaphore - 1) })

  pub sem_psh : Kernel → ℕ → Option Kernel
  sem_psh k p_cb = if (k.blocks p_cb).p_lnk == 0 then some (store_token k p_cb) else (do
    (task, k1) ← take_first k p_cb (λ k1 task. ret_val k1 task 1)
    make_ready fuel k1 task)
