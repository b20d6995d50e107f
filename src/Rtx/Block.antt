-- ===== src/Rtx/Block.antt =====
-- mbed-rtos/rtx/TARGET_CORTEX_M/os_tcb.h, rt_TypeDef.h, rt_Task.h and rt_List.h: the control blocks of
-- tasks and the heads of lists, at their addresses; 0 is NULL. The heads os_rdy and os_dly, semaphores,
-- mailboxes and mutexes have cb_type, p_lnk and the other links at the same offsets as a task.
pub mod CbType
pub mod State
pub mod Rc
use remotus_hardware.Base.{ℕ, ◌+◌, ◌-◌, ◌%◌, ◌^◌, Bool, Option, none, some, ◌==◌, if◌then◌else◌}

-- OS_TCB, less the members of the stack
pub record Block : Type 0 where
  pub cb_type : ℕ
  pub state : ℕ
  pub prio : ℕ
  pub task_id : ℕ
  pub p_lnk : ℕ
  pub p_rlnk : ℕ
  pub p_dlnk : ℕ
  pub p_blnk : ℕ
  pub delta_time : ℕ
  pub interval_time : ℕ
  pub events : ℕ
  pub waits : ℕ
  pub msg : ℕ

abbrev pub Store : Type 0
Store = ℕ → Block

-- An assignment to members of the block at an address.
abbrev pub modify : Store → ℕ → (Block → Block) → Store
modify s a f = λ x. if x == a then f (s x) else s x

abbrev pub set_lnk : Store → ℕ → ℕ → Store
set_lnk s a v = modify s a (λ b. record b { p_lnk = v })

abbrev pub set_rlnk : Store → ℕ → ℕ → Store
set_rlnk s a v = modify s a (λ b. record b { p_rlnk = v })

abbrev pub set_dlnk : Store → ℕ → ℕ → Store
set_dlnk s a v = modify s a (λ b. record b { p_dlnk = v })

abbrev pub set_blnk : Store → ℕ → ℕ → Store
set_blnk s a v = modify s a (λ b. record b { p_blnk = v })

abbrev pub set_delta : Store → ℕ → ℕ → Store
set_delta s a v = modify s a (λ b. record b { delta_time = v })

abbrev pub set_state : Store → ℕ → ℕ → Store
set_state s a v = modify s a (λ b. record b { state = v })

abbrev pub set_prio : Store → ℕ → ℕ → Store
set_prio s a v = modify s a (λ b. record b { prio = v })

abbrev pub set_events : Store → ℕ → ℕ → Store
set_events s a v = modify s a (λ b. record b { events = v })

abbrev pub set_waits : Store → ℕ → ℕ → Store
set_waits s a v = modify s a (λ b. record b { waits = v })

-- The addresses of the heads of the ready list and of the delay list.
abbrev pub os_rdy : ℕ
os_rdy = 1

abbrev pub os_dly : ℕ
os_dly = 2

-- U16 arithmetic
abbrev pub add16 : ℕ → ℕ → ℕ
add16 a b = (a + b) % 2 ^ 16

abbrev pub sub16 : ℕ → ℕ → ℕ
sub16 a b = (a + 2 ^ 16 - b % 2 ^ 16) % 2 ^ 16
