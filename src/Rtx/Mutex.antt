-- ===== src/Rtx/Mutex.antt =====
-- mbed-rtos/rtx/TARGET_CORTEX_M/rt_Mutex.c.
pub mod Laws
pub mod Release
mod Tests
use remotus_hardware.Base.{
  ℕ, ◌+◌, ◌-◌, not, ◌||◌, Option, none, some, ◌>>=◌, ◌==◌, ltb, if◌then◌else◌,
}
use remotus_hardware.Rtx.Block.{modify, set_prio, set_state, os_rdy, add16}
use remotus_hardware.Rtx.Block.State
use remotus_hardware.Rtx.Block.CbType
use remotus_hardware.Rtx.Block.Rc
use remotus_hardware.Rtx.PrioList.{resort_prio}
use remotus_hardware.Rtx.Kernel.{Kernel, Mucb, put, ret_val}
use remotus_hardware.Rtx.Task.{make_ready, dispatch, block, rdy_prio, yield_above}
use remotus_hardware.Rtx.Waiting.{wait_at, take_first, wake_all, preempt}

pub mut_init : Kernel → ℕ → Kernel
mut_init k mutex = record k {
  blocks = modify k.blocks mutex (λ b. record b { cb_type = CbType.mucb; p_lnk = 0 });
  mutexes = put k.mutexes mutex (record { prio = 0; level = 0; owner = 0 });
}

abbrev pub set_mutex : Kernel → ℕ → Mucb → Kernel
set_mutex k mutex m = record k { mutexes = put k.mutexes mutex m }

module _ (fuel : ℕ) where
  -- the first part of rt_mut_delete
  pub restore_owner : Kernel → ℕ → Option Kernel
  restore_owner k mutex =
      let m = k.mutexes mutex in
      let blocks = set_prio k.blocks m.owner m.prio in
      if m.level == 0
      then some k
      else if m.owner == k.run
      then some (record k { blocks = blocks })
      else (resort_prio fuel blocks m.owner >>= λ blocks1. some (record k { blocks = blocks1 }))

  pub mut_delete : Kernel → ℕ → Option (ℕ × Kernel)
  mut_delete k mutex = do
    k1 ← restore_owner k mutex
    k2 ← wake_all fuel fuel k1 mutex
    k3 ← preempt fuel k2
    some (Rc.ok, record k3 { blocks = modify k3.blocks mutex (λ b. record b { cb_type = 0 }) })

  -- The first waiting task becomes the owner.
  pub pass_on : Kernel → ℕ → Option Kernel
  pass_on k mutex = do
    (task, k1) ← take_first k mutex (λ k1 task. ret_val k1 task 0)
    let m : Mucb = record { prio = (k1.blocks task).prio; level = 1; owner = task }
    let k2 = set_mutex k1 mutex m
    highest ← rdy_prio k2
    if ltb (k2.blocks k2.run).prio highest
        then (do k3 ← make_ready fuel k2 k2.run; k4 ← make_ready fuel k3 task; dispatch fuel k4 0)
        else dispatch fuel k2 task

  -- from "Restore owner task's priority" on
  pub give_up : Kernel → ℕ → Option Kernel
  give_up k mutex =
      let k1 = record k { blocks = set_prio k.blocks k.run (k.mutexes mutex).prio } in
      if (k1.blocks mutex).p_lnk == 0
      then yield_above fuel k1 (k1.blocks k1.run).prio
      else pass_on k1 mutex

  pub mut_release : Kernel → ℕ → Option (ℕ × Kernel)
  mut_release k mutex =
      let m = k.mutexes mutex in
      let k1 = set_mutex k mutex (record m { level = m.level - 1 }) in
      if m.level == 0 || not (m.owner == k.run)
      then some (Rc.nok, k)
      else if m.level - 1 == 0
      then (give_up k1 mutex >>= λ k2. some (Rc.ok, k2))
      else some (Rc.ok, k1)

  -- The priority inheritance of rt_mut_wait.
  pub raise_owner : Kernel → ℕ → Option Kernel
  raise_owner k mutex =
      let m = k.mutexes mutex in
      let prio = (k.blocks k.run).prio in
      if ltb m.prio prio
      then (resort_prio fuel (set_prio k.blocks m.owner prio) m.owner >>= λ blocks.
          some (record k { blocks = blocks }))
      else some k

  pub mut_wait : Kernel → ℕ → ℕ → Option (ℕ × Kernel)
  mut_wait k mutex timeout =
      let m = k.mutexes mutex in
      if m.level == 0
      then some (
        Rc.ok,
        set_mutex k mutex
            (record { prio = (k.blocks k.run).prio; level = add16 m.level 1; owner = k.run }),
      )
      else if m.owner == k.run
      then some (Rc.ok, set_mutex k mutex (record m { level = add16 m.level 1 }))
      else if timeout == 0
      then some (Rc.tmo, k)
      else (do
        k1 ← raise_owner k mutex
        blocks ← wait_at fuel k1.blocks mutex k1.run
        k2 ← block fuel (record k1 { blocks = blocks }) timeout State.wait_mut
        some (Rc.tmo, k2))
