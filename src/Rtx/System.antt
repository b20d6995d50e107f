-- ===== src/Rtx/System.antt =====
-- mbed-rtos/rtx/TARGET_CORTEX_M/rt_System.c: the requests that interrupts posted,
-- the tick of the system, and the delays after the scheduler was suspended.
pub mod Laws
mod Tests
use remotus_hardware.Base.{
  ℕ, zero, suc, ◌+◌, ◌-◌, ◌%◌, ◌^◌, Option, some, ◌>>=◌, ◌==◌, leb, if◌then◌else◌,
}
use remotus_hardware.Rtx.Block.{set_state, set_delta, os_dly}
use remotus_hardware.Rtx.Block.State
use remotus_hardware.Rtx.Block.CbType
use remotus_hardware.Rtx.PrioList.{put_rdy_first}
use remotus_hardware.Rtx.DelayList.{dec_dly}
use remotus_hardware.Rtx.Kernel.{Kernel}
use remotus_hardware.Rtx.Time.{chk_robin}
use remotus_hardware.Rtx.Task.{switch_first}
use remotus_hardware.Rtx.Semaphore.{sem_psh}
use remotus_hardware.Rtx.Mailbox.{mbx_psh}
use remotus_hardware.Rtx.Event.{evt_psh}

-- The running task goes to the front of the ready list.
pub suspend_run : Kernel → Kernel
suspend_run k = record k { blocks = put_rdy_first (set_state k.blocks k.run State.ready) k.run }

pub advance_time : Kernel → ℕ → Kernel
advance_time k ticks = record k { os_time = (k.os_time + ticks) % 2 ^ 32 }

-- The result of rt_suspend, which changes nothing but by rt_tsk_lock.
pub suspend : Kernel → ℕ
suspend k = if (k.blocks os_dly).p_dlnk == 0 then 2 ^ 16 - 1 else (k.blocks os_dly).delta_time

module _ (fuel : ℕ) where
  -- the kind of object that the request is for
  pub pop_one : Kernel → ℕ × ℕ → Option Kernel
  pop_one k (id, arg) =
      let cb_type = (k.blocks id).cb_type in
      if cb_type == CbType.tcb
      then evt_psh fuel k id (arg % 2 ^ 16)
      else if cb_type == CbType.mcb
      then mbx_psh fuel k id arg
      else sem_psh fuel k id

  -- The loop over the requests, from `idx` on, one round to a request; the result is `idx` at its end.
  pub pop_loop : ℕ → Kernel → ℕ → Option (ℕ × Kernel)
  pop_loop zero k idx = some (idx, k)
  pop_loop (suc left) k idx =
      let next = if idx + 1 == k.psq.size then 0 else idx + 1 in
      pop_one k (k.psq.q idx) >>= λ k1.
      pop_loop left (record k1 { psq = record (k1.psq) { count = k1.psq.count - 1 } }) next

  pub pop_req : Kernel → Option Kernel
  pop_req k = do
    (idx, k1) ← pop_loop k.psq.count (suspend_run k) k.psq.last
    switch_first (record k1 { psq = record (k1.psq) { last = idx % 256 } })

  -- rt_dec_dly at the system's time
  pub tick_delays : Kernel → Option Kernel
  tick_delays k = dec_dly fuel k.blocks k.os_time >>= λ blocks. some (record k { blocks = blocks })

  -- `sysTimerTick`, the tick of the timers in rt_CMSIS.c, is the argument.
  pub systick : (Kernel → Option Kernel) → Kernel → Option Kernel
  systick sys_timer_tick k = do
    k1 ← chk_robin fuel (suspend_run k)
    k2 ← tick_delays (advance_time k1 1)
    k3 ← sys_timer_tick k2
    switch_first k3

  -- The loop over the ticks that are left, until no task waits.
  pub resume_ticks : ℕ → Kernel → Option Kernel
  resume_ticks zero k = if (k.blocks os_dly).p_dlnk == 0 then some k else tick_delays k
  resume_ticks (suc delta) k =
      let rest = λ (k1 : Kernel). resume_ticks delta (advance_time k1 1) in
      if (k.blocks os_dly).p_dlnk == 0 then some k else (tick_delays k >>= rest)

  pub resume_delays : Kernel → ℕ → Option Kernel
  resume_delays k sleep_time =
      let first = (k.blocks os_dly).delta_time in
      if (k.blocks os_dly).p_dlnk == 0
      then some (advance_time k sleep_time)
      else if leb first sleep_time
      then resume_ticks (sleep_time - first)
          (record (advance_time k first) { blocks = set_delta k.blocks os_dly 1 })
      else some (record (advance_time k sleep_time) {
        blocks = set_delta k.blocks os_dly (first - sleep_time);
      })

  -- rt_resume, less rt_tsk_unlock
  pub resume : Kernel → ℕ → Option Kernel
  resume k sleep_time =
      let k1 = suspend_run k in
      resume_delays (record k1 { robin = record (k1.robin) { task = 0 } }) sleep_time
      >>= switch_first
