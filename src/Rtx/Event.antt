-- ===== src/Rtx/Event.antt =====
-- mbed-rtos/rtx/TARGET_CORTEX_M/rt_Event.c: the event flags of tasks.
pub mod Laws
mod Tests
use Prim.Native.Nat.{bit_and, bit_or, bit_xor}
use remotus_hardware.Base.{
  ℕ, ◌-◌, Bool, not, ◌&&◌, ◌||◌, ltb, Option, none, some, ◌>>=◌, ◌==◌, if◌then◌else◌,
}
use remotus_hardware.Rtx.Block.{Block, modify, set_events, set_state}
use remotus_hardware.Rtx.Block.State
use remotus_hardware.Rtx.Block.Rc
use remotus_hardware.Rtx.DelayList.{rmv_dly}
use remotus_hardware.Rtx.PostQueue.{psq_enq}
use remotus_hardware.Rtx.Kernel.{Kernel, ret_val2}
use remotus_hardware.Rtx.Task.{dispatch, make_ready, block}

-- `events & ~flags`, of type U16
abbrev pub clear : ℕ → ℕ → ℕ
clear events flags = bit_and events (bit_xor flags 0xffff)

-- The three conditions: all flags, any flag, and the one that the state of a waiting task asks for.
abbrev pub has_all : ℕ → ℕ → Bool
has_all events flags = bit_and events flags == flags

abbrev pub has_any : ℕ → ℕ → Bool
has_any events flags = not (bit_and events flags == 0)

-- The two tests of rt_evt_set and rt_evt_psh: the task when its wait ends, or none.
pub met : Block → Option Block
met b =
    if b.state == State.wait_and && has_all b.events b.waits
    then some (record b { events = clear b.events b.waits })
    else if b.state == State.wait_or && has_any b.events b.waits
    then some (record b { waits = bit_and b.waits b.events; events = clear b.events b.waits })
    else none

-- `rt_rmv_dly`, the state READY and the result, with osEventSignal in R0.
pub wake_up : Kernel → ℕ → Block → Kernel
wake_up k p_tcb b =
    let blocks = set_state (rmv_dly (modify k.blocks p_tcb (λ b0. b)) p_tcb) p_tcb State.ready in
    ret_val2 (record k { blocks = blocks }) p_tcb 0x08 b.waits

abbrev pub add_events : Kernel → ℕ → ℕ → Kernel
add_events k p_tcb flags = record k {
  blocks = modify k.blocks p_tcb (λ b. record b { events = bit_or b.events flags });
}

-- `os_active_TCB[task_id-1]`; outside the array of os_maxtaskrun entries the access is a fault.
unfoldable pub active_tcb : Kernel → ℕ → Option ℕ
active_tcb k task_id =
    if task_id == 0 || ltb k.max_tasks task_id then none else some (k.active (task_id - 1))

pub evt_clr : Kernel → ℕ → ℕ → Option Kernel
evt_clr k clear_flags task_id = do
  task ← active_tcb k task_id
  some (
      if task == 0 then k else record k {
        blocks = set_events k.blocks task (clear (k.blocks task).events clear_flags);
      })

pub evt_get : Kernel → ℕ
evt_get k = (k.blocks k.run).waits

-- isr_evt_set, less rt_psh_req, which asks the processor for rt_pop_req.
pub isr_evt_set : Kernel → ℕ → ℕ → Option Kernel
isr_evt_set k event_flags task_id = do
  p_tcb ← active_tcb k task_id
  if p_tcb == 0
      then some k
      else (psq_enq k.psq p_tcb event_flags >>= λ psq. some (record k { psq = psq }))

module _ (fuel : ℕ) where
  pub evt_wait : Kernel → ℕ → ℕ → Bool → Option (ℕ × Kernel)
  evt_wait k wait_flags timeout and_wait =
      let b = k.blocks k.run in
      let taken = clear b.events wait_flags in
      let all = record k { blocks = modify k.blocks k.run (λ b0. record b { events = taken }) } in
      let any = record k {
        blocks =
            modify k.blocks k.run
              (λ b0. record b { events = taken; waits = bit_and b.events wait_flags });
      } in
      let waiting = record k {
        blocks = modify k.blocks k.run (λ b0. record b { waits = wait_flags });
      } in
      if and_wait && has_all b.events wait_flags
      then some (Rc.evt, all)
      else if not and_wait && has_any b.events wait_flags
      then some (Rc.evt, any)
      else (block fuel waiting timeout (if and_wait then State.wait_and else State.wait_or)
          >>= λ k1. some (Rc.tmo, k1))

  -- The rest of rt_evt_set, with the flags set.
  pub evt_check : Kernel → ℕ → (Kernel → ℕ → Option Kernel) → Option Kernel
  evt_check k p_tcb resume = elim (met (k.blocks p_tcb)) [
    | none ↦ some k
    | some b ↦ resume (wake_up k p_tcb b) p_tcb
  ]

  pub evt_set : Kernel → ℕ → ℕ → Option Kernel
  evt_set k event_flags task_id = do
    p_tcb ← active_tcb k task_id
    if p_tcb == 0 then some k else evt_check (add_events k p_tcb event_flags) p_tcb (dispatch fuel)

  pub evt_psh : Kernel → ℕ → ℕ → Option Kernel
  evt_psh k p_cb set_flags = evt_check (add_events k p_cb set_flags) p_cb (make_ready fuel)
