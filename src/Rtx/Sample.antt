-- ===== src/Rtx/Sample.antt =====
-- A kernel in the middle of its work, on which the theorems about it are run.
use remotus_hardware.Base.{
  ℕ, ◌+◌, ◌≤◌, ◌<◌, ◌≡◌, refl, List, [], ◌∷◌, ◌++◌, if◌then◌else◌, ◌==◌, arith, count,
}
use remotus_hardware.Rtx.Block.{Block, Store}
use remotus_hardware.Rtx.Block.State
use remotus_hardware.Rtx.Block.CbType
use remotus_hardware.Rtx.PrioList.Laws.{IsChain}
use remotus_hardware.Rtx.PrioList.Order.{IsOrdered}
use remotus_hardware.Rtx.DelayList.Links.{tasks, IsDelay}
use remotus_hardware.Rtx.Kernel.{Kernel}
use remotus_hardware.Rtx.Task.Ready.{IsReady}
use remotus_hardware.Rtx.Waiting.Block.{CanWait}
use remotus_hardware.Rtx.Mutex.Release.{CanRelease}

abbrev entry : ℕ → ℕ → ℕ → ℕ → ℕ → Block
entry cb_type state prio p_lnk p_rlnk = record {
  cb_type = cb_type;
  state = state;
  prio = prio;
  task_id = 0;
  p_lnk = p_lnk;
  p_rlnk = p_rlnk;
  p_dlnk = 0;
  p_blnk = 0;
  delta_time = 0;
  interval_time = 0;
  events = 0;
  waits = 0;
  msg = 0;
}

-- Task 3 runs, 4 and 5 are ready, 6 and 7 wait at the object 8, and 6 and 9 are delayed by 10 and
-- 30 ticks.
abbrev pub blocks : Store
blocks = λ x.
    if x == 1
    then entry CbType.hcb 0 0 4 0
    else if x == 2
    then record (entry CbType.hcb 0 0 0 0) { p_dlnk = 6; delta_time = 10 }
    else if x == 3
    then entry CbType.tcb State.running 4 0 0
    else if x == 4
    then entry CbType.tcb State.ready 3 5 0
    else if x == 5
    then entry CbType.tcb State.ready 1 0 0
    else if x == 6
    then record (entry CbType.tcb State.wait_sem 5 7 8) { p_dlnk = 9; p_blnk = 2; delta_time = 20 }
    else if x == 7
    then entry CbType.tcb State.wait_sem 2 0 6
    else if x == 8
    then entry CbType.scb 0 0 6 0
    else if x == 9
    then record (entry CbType.tcb State.wait_dly 6 0 0) { p_blnk = 6 }
    else entry CbType.tcb State.inactive 5 0 0

-- Task 3 owns the mutex 8, which it took with priority 2, and task 9 the others, with priority 1.
abbrev pub kernel : Kernel
kernel = record {
  blocks = blocks;
  run = 3;
  new_tsk = 3;
  os_time = 100;
  tokens = λ x. 0;
  mutexes = λ x.
      if x == 8
      then record { prio = 2; level = 1; owner = 3 }
      else record { prio = 1; level = 1; owner = 9 };
  mailboxes =
      λ x. record { state = 0; isr_st = 0; first = 0; last = 0; count = 0; size = 0; msg = [] };
  psq = record { first = 0; last = 0; count = 0; size = 4; q = λ x. (0, 0) };
  robin = record { task = 0; time = 0; tout = 5 };
  active = λ x. x + 3;
  max_tasks = 7;
  regs = λ x. (0, 0);
  mem = λ x. 0;
}

abbrev pub delays : List (ℕ × ℕ)
delays = (6, 10) ∷ (9, 30) ∷ []

pub all-once : (x : ℕ) → count x ((1 ∷ 3 ∷ 4 ∷ 5 ∷ []) ++ (6 ∷ 8 ∷ 7 ∷ [])) ≤ 1
all-once x = grind arith

pub ready-once : (x : ℕ) → count x (1 ∷ 3 ∷ 4 ∷ 5 ∷ []) ≤ 1
ready-once x = grind arith

pub first-once : (x : ℕ) → count x (1 ∷ 4 ∷ 5 ∷ []) ≤ 1
first-once x = grind arith

pub delays-once : (x : ℕ) → count x (2 ∷ tasks delays) ≤ 1
delays-once x = grind arith

pub ready-IsChain : IsChain blocks 1 (4 ∷ 5 ∷ [])
ready-IsChain = (refl, omega arith, (refl, omega arith, refl))

pub waiting-IsChain : IsChain blocks 8 (6 ∷ 7 ∷ [])
waiting-IsChain = (refl, omega arith, (refl, omega arith, refl))

pub delays-IsDelay : IsDelay blocks 2 0 delays
delays-IsDelay = (
  refl,
  omega arith,
  refl,
  refl,
  omega arith,
  (refl, omega arith, refl, refl, omega arith, (refl, refl)),
)

only : (x t : ℕ) → 0 < count x (t ∷ []) → x ≡ t
only x t k = grind arith

pub ready-IsOrdered : IsOrdered blocks (4 ∷ 5 ∷ [])
ready-IsOrdered = ((λ x k. rw (only x 5 k) (omega arith)), ((λ x k. absurd (omega arith)), tt))

either : (x : ℕ) → 0 < count x (4 ∷ 5 ∷ []) → (blocks x).prio ≤ (blocks 3).prio
either x k = grind arith

pub sample-IsReady : IsReady blocks 3 (4 ∷ 5 ∷ [])
sample-IsReady = record {
  chain = ready-IsChain;
  once = ready-once;
  ordered = ready-IsOrdered;
  highest = either;
  some_task = omega arith;
}

pub sample-CanWait : CanWait kernel 8 4 (5 ∷ []) (6 ∷ 7 ∷ []) delays
sample-CanWait = record {
  ready = ready-IsChain;
  ordered = ready-IsOrdered;
  waiting = waiting-IsChain;
  delays = delays-IsDelay;
  once = λ x. grind arith;
  once_delayed = λ x. grind arith;
  some_run = omega arith;
}

pub sample-CanRelease : CanRelease kernel 8 4 6 (5 ∷ []) (7 ∷ [])
sample-CanRelease = record {
  ready = ready-IsChain;
  ordered = ready-IsOrdered;
  waiting = waiting-IsChain;
  once = all-once;
  none_new = refl;
  some_run = omega arith;
}
