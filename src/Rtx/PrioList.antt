-- ===== src/Rtx/PrioList.antt =====
-- mbed-rtos/rtx/TARGET_CORTEX_M/rt_List.c: lists of tasks ordered by priority, linked through the
-- control blocks. A control block stands at an address, 0 is NULL, and the head of a list (os_rdy, a
-- semaphore, a mailbox, a mutex) has its cb_type and p_lnk at the same offsets as a task.
pub mod Laws
pub mod Order
pub mod Frame
pub mod Back
mod Tests
use remotus_hardware.Base.{
  ℕ, zero, suc, Bool, not, ◌&&◌, ◌||◌, Option, none, some, ◌>>=◌, ◌==◌, leb, if◌then◌else◌,
}
use remotus_hardware.Rtx.Block.{Block, Store, set_lnk, set_rlnk, os_rdy}
use remotus_hardware.Rtx.Block.State
use remotus_hardware.Rtx.Block.CbType

-- `cb_type == SCB || cb_type == MCB || cb_type == MUCB`
abbrev pub is_sem_mbx : ℕ → Bool
is_sem_mbx cb_type = cb_type == 2 || cb_type == 1 || cb_type == 3

-- from "Entry found" on
pub insert_at : Bool → ℕ → Store → ℕ → ℕ → Store
insert_at sem_mbx p_task s p_cb p_cb2 =
    let s1 = set_lnk s p_task p_cb2 in
    let s2 = set_lnk s1 p_cb p_task in
    if sem_mbx
    then set_rlnk (if p_cb2 == 0 then s2 else set_rlnk s2 p_cb2 p_task) p_task p_cb
    else set_rlnk s2 p_task 0

-- The search from the entry `p_cb` on, and the insertion. A round follows one link; with no round left
-- the result is `none`.
pub put_from : ℕ → Bool → ℕ → ℕ → Store → ℕ → ℕ → Option Store
put_from zero sem_mbx prio p_task s p_cb p_cb2 = none
put_from (suc fuel) sem_mbx prio p_task s p_cb p_cb2 =
    let rest = put_from fuel sem_mbx prio p_task s p_cb2 (s p_cb2).p_lnk in
    if not (p_cb2 == 0) && leb prio (s p_cb2).prio
    then rest
    else some (insert_at sem_mbx p_task s p_cb p_cb2)

pub put_prio : ℕ → Store → ℕ → ℕ → Option Store
put_prio fuel s p_cb p_task =
    put_from fuel (is_sem_mbx (s p_cb).cb_type) (s p_task).prio p_task s p_cb (s p_cb).p_lnk

-- from `p_CB->p_lnk = p_first->p_lnk` on
pub unlink : Bool → Store → ℕ → ℕ → ℕ → Store
unlink sem_mbx s p_cb first next =
    let s1 = set_lnk s p_cb next in
    if sem_mbx
    then set_rlnk (if next == 0 then s1 else set_lnk (set_rlnk s1 next p_cb) first 0) first 0
    else set_lnk s1 first 0

-- The task at the head and the store; without a task the code reads through NULL, a fault.
pub get_first : Store → ℕ → Option (ℕ × Store)
get_first s p_cb =
    let first = (s p_cb).p_lnk in
    if first == 0
    then none
    else some (first, unlink (is_sem_mbx (s p_cb).cb_type) s p_cb first (s first).p_lnk)

pub put_rdy_first : Store → ℕ → Store
put_rdy_first s p_task =
    set_lnk (set_rlnk (set_lnk s p_task (s os_rdy).p_lnk) p_task 0) os_rdy p_task

-- The first ready task if it has the priority of the task `run`, else NULL.
pub get_same_rdy_prio : Store → ℕ → Option (ℕ × Store)
get_same_rdy_prio s run =
    let first = (s os_rdy).p_lnk in
    if first == 0
    then none
    else if (s first).prio == (s run).prio
    then some (first, set_lnk s os_rdy (s first).p_lnk)
    else some (0, s)

-- The search of rt_rmv_list for the entry before `p_task`, from `p_b` on.
pub rmv_from : ℕ → Store → ℕ → ℕ → Option Store
rmv_from zero s p_task p_b = none
rmv_from (suc fuel) s p_task p_b =
    let rest = rmv_from fuel s p_task (s p_b).p_lnk in
    if p_b == 0
    then some s
    else if (s p_b).p_lnk == p_task
    then some (set_lnk s p_b (s p_task).p_lnk)
    else rest

pub rmv_list : ℕ → Store → ℕ → Option Store
rmv_list fuel s p_task =
    if (s p_task).p_rlnk == 0
    then rmv_from fuel s p_task os_rdy
    else (let s1 = set_lnk s (s p_task).p_rlnk (s p_task).p_lnk in
        let next = (s1 p_task).p_lnk in
        some (if next == 0 then s1 else set_rlnk s1 next (s1 p_task).p_rlnk))

-- The header of the list on which the entry `p_cb` stands, by the back links.
pub find_header : ℕ → Store → ℕ → Option ℕ
find_header zero s p_cb = none
find_header (suc fuel) s p_cb =
    let rest = find_header fuel s (s p_cb).p_rlnk in
    if (s p_cb).cb_type == CbType.tcb then rest else some p_cb

pub resort_prio : ℕ → Store → ℕ → Option Store
resort_prio fuel s p_task =
    if (s p_task).p_rlnk == 0
    then (if (s p_task).state == State.ready
        then (rmv_list fuel s p_task >>= λ s1. put_prio fuel s1 os_rdy p_task)
        else some s)
    else (do
      head ← find_header fuel s (s p_task).p_rlnk
      s1 ← rmv_list fuel s p_task
      put_prio fuel s1 head p_task)
