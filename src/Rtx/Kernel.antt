-- ===== src/Rtx/Kernel.antt =====
-- mbed-rtos/rtx/TARGET_CORTEX_M: the variables of the kernel (rt_List.c, rt_Task.c, rt_Time.c,
-- rt_Robin.c), its objects at their addresses (rt_TypeDef.h), and the registers in which a waiting task
-- finds its result (HAL_CM.c).
use remotus_hardware.Base.{ℕ, List, ◌==◌, if◌then◌else◌}
use remotus_hardware.Rtx.Block.{Store}
use remotus_hardware.Rtx.MemBox.{Memory}
use remotus_hardware.Rtx.PostQueue.{Psq}

-- OS_MUCB, less cb_type and p_lnk, which stand in the block at its address.
pub record Mucb : Type 0 where
  pub prio : ℕ
  pub level : ℕ
  pub owner : ℕ

-- OS_MCB, likewise; `msg` has the entries of its array.
pub record Mcb : Type 0 where
  pub state : ℕ
  pub isr_st : ℕ
  pub first : ℕ
  pub last : ℕ
  pub count : ℕ
  pub size : ℕ
  pub msg : List ℕ

-- OS_ROBIN
pub record Robin : Type 0 where
  pub task : ℕ
  pub time : ℕ
  pub tout : ℕ

pub record Kernel : Type 0 where
  pub blocks : Store
  pub run : ℕ
  pub new_tsk : ℕ
  pub os_time : ℕ
  pub tokens : ℕ → ℕ
  pub mutexes : ℕ → Mucb
  pub mailboxes : ℕ → Mcb
  pub psq : Psq
  pub robin : Robin
  -- os_active_TCB by index, and os_maxtaskrun
  pub active : ℕ → ℕ
  pub max_tasks : ℕ
  -- the registers R0 and R1 in the stack frame of a task
  pub regs : ℕ → ℕ × ℕ
  pub mem : Memory

abbrev pub put {ℓ} : {A : Type ℓ} → (ℕ → A) → ℕ → A → ℕ → A
put f a v = λ x. if x == a then v else f x

unfoldable pub ret_val : Kernel → ℕ → ℕ → Kernel
ret_val k p_tcb v0 = record k { regs = put k.regs p_tcb (v0, (k.regs p_tcb).1) }

unfoldable pub ret_val2 : Kernel → ℕ → ℕ → ℕ → Kernel
ret_val2 k p_tcb v0 v1 = record k { regs = put k.regs p_tcb (v0, v1) }
