-- ===== src/Rtx/Time.antt =====
-- mbed-rtos/rtx/TARGET_CORTEX_M/rt_Time.c and rt_Robin.c: delays, intervals and the time slice.
use remotus_hardware.Base.{ℕ, ◌/◌, ◌%◌, ◌^◌, Option, some, ◌>>=◌, ◌==◌, if◌then◌else◌}
use remotus_hardware.Rtx.Block.{modify, set_delta, os_rdy, add16, sub16}
use remotus_hardware.Rtx.Block.State
use remotus_hardware.Rtx.PrioList.{put_prio, get_first}
use remotus_hardware.Rtx.Kernel.{Kernel}
use remotus_hardware.Rtx.Task.{block}

pub itv_set : Kernel → ℕ → Kernel
itv_set k interval = record k {
  blocks = modify k.blocks k.run (λ b. record b {
    interval_time = interval;
    delta_time = add16 interval (k.os_time % 2 ^ 16);
  });
}

-- `os_rrobin` is the configured time slice.
pub init_robin : Kernel → ℕ → Kernel
init_robin k os_rrobin = record k {
  robin = record (k.robin) { task = 0; tout = os_rrobin % 2 ^ 16 };
}

-- A new first task gets a whole time slice.
pub new_slice : Kernel → Kernel
new_slice k =
    let first = (k.blocks os_rdy).p_lnk in
    if k.robin.task == first then k else record k {
      robin = record (k.robin) {
        task = first;
        time = sub16 (add16 (k.os_time % 2 ^ 16) k.robin.tout) 1;
      };
    }

module _ (fuel : ℕ) where
  pub dly_wait : Kernel → ℕ → Option Kernel
  dly_wait k delay_time = block fuel k delay_time State.wait_dly

  pub itv_wait : Kernel → Option Kernel
  itv_wait k =
      let b = k.blocks k.run in
      let delta = sub16 b.delta_time (k.os_time % 2 ^ 16) in
      let k1 = record k {
        blocks = set_delta k.blocks k.run (add16 b.delta_time b.interval_time);
      } in
      if delta / 2 ^ 15 % 2 == 0 then block fuel k1 delta State.wait_itv else some k1

  pub chk_robin : Kernel → Option Kernel
  chk_robin k =
      let k1 = new_slice k in
      if k1.robin.time == k.os_time % 2 ^ 16
      then (do
        (task, blocks) ← get_first k1.blocks os_rdy
        blocks1 ← put_prio fuel blocks os_rdy task
        some (record k1 { blocks = blocks1; robin = record (k1.robin) { task = 0 } }))
      else some k1
