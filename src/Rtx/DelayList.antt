-- ===== src/Rtx/DelayList.antt =====
-- mbed-rtos/rtx/TARGET_CORTEX_M/rt_List.c: the list of delayed tasks. The delta_time of an entry is
-- the time from its expiry to that of the next entry; the head os_dly has the time to the first.
-- A loop is given a number of rounds; with no round left the result is `none`.
pub mod Links
pub mod Put
pub mod Remove
pub mod Leave
pub mod Expire
pub mod Tick
mod Tests
use remotus_hardware.Base.{
  ℕ, zero, suc, ◌+◌, ◌%◌, ◌^◌, not, ◌||◌, Option, none, some, ◌>>=◌, ◌==◌, ltb, if◌then◌else◌,
}
use remotus_hardware.Rtx.Block.{
  Store, set_lnk, set_rlnk, set_dlnk, set_blnk, set_delta, set_state, os_rdy, os_dly, add16, sub16,
}
use remotus_hardware.Rtx.Block.State
use remotus_hardware.Rtx.PrioList.{put_prio}

-- the label `last`
pub dly_last : Store → ℕ → ℕ → ℕ → ℕ → Store
dly_last s p_task idelay p delta =
    let s1 = set_dlnk s p_task 0 in
    let s2 = set_dlnk s1 p p_task in
    let s3 = set_blnk s2 p_task p in
    let s4 = set_delta s3 p (sub16 idelay delta) in set_delta s4 p_task 0

-- from "Right place found" on
pub dly_insert : Store → ℕ → ℕ → ℕ → ℕ → Store
dly_insert s p_task idelay p delta =
    let s1 = set_dlnk s p_task (s p).p_dlnk in
    let s2 = set_dlnk s1 p p_task in
    let s3 = set_blnk s2 p_task p in
    let next = (s3 p_task).p_dlnk in
    let s4 = if next == 0 then s3 else set_blnk s3 next p_task in
    let s5 = set_delta s4 p_task (sub16 delta idelay) in
    set_delta s5 p (sub16 (s5 p).delta_time (s5 p_task).delta_time)

pub put_dly_from : ℕ → Store → ℕ → ℕ → ℕ → ℕ → Option Store
put_dly_from zero s p_task idelay p delta = none
put_dly_from (suc fuel) s p_task idelay p delta =
    let next = (s p).p_dlnk in
    let rest = put_dly_from fuel s p_task idelay next ((delta + (s next).delta_time) % 2 ^ 32) in
    if ltb delta idelay
    then (if next == 0 then some (dly_last s p_task idelay p delta) else rest)
    else some (dly_insert s p_task idelay p delta)

pub put_dly : ℕ → Store → ℕ → ℕ → Option Store
put_dly fuel s p_task delay =
    if (s os_dly).p_dlnk == 0
    then some (dly_last s p_task delay os_dly 0)
    else put_dly_from fuel s p_task delay os_dly (s os_dly).delta_time

-- `p_rdy` leaves the waiting list of a semaphore, a mailbox or a mutex.
pub unchain : Store → ℕ → Store
unchain s p_rdy =
    let s1 = set_lnk s (s p_rdy).p_rlnk (s p_rdy).p_lnk in
    let next = (s1 p_rdy).p_lnk in
    let s2 = if next == 0 then s1 else set_lnk (set_rlnk s1 next (s1 p_rdy).p_rlnk) p_rdy 0 in
    set_rlnk s2 p_rdy 0

-- after rt_put_prio, in the loop of rt_dec_dly
pub leave_dly : Store → ℕ → ℕ → Store
leave_dly s os_time p_rdy =
    let s1 = set_delta s os_dly (s p_rdy).delta_time in
    let s2 =
      if (s1 p_rdy).state == State.wait_itv
      then set_delta s1 p_rdy (add16 (s1 p_rdy).interval_time (os_time % 2 ^ 16))
      else s1 in
    let s3 = set_state s2 p_rdy State.ready in
    let s4 = set_dlnk s3 os_dly (s3 p_rdy).p_dlnk in
    let next = (s4 p_rdy).p_dlnk in
    let s5 = if next == 0 then s4 else set_dlnk (set_blnk s4 next os_dly) p_rdy 0 in
    set_blnk s5 p_rdy 0

-- One round of the loop of rt_dec_dly.
pub wake : ℕ → Store → ℕ → ℕ → Option Store
wake fuel s os_time p_rdy =
    let s1 = if (s p_rdy).p_rlnk == 0 then s else unchain s p_rdy in
    put_prio fuel s1 os_rdy p_rdy >>= λ s2. some (leave_dly s2 os_time p_rdy)

pub expire : ℕ → ℕ → Store → ℕ → Option Store
expire zero fuel s os_time = none
expire (suc rounds) fuel s os_time =
    let rest = λ (s1 : Store). expire rounds fuel s1 os_time in
    if not ((s os_dly).delta_time == 0) || ((s os_dly).p_dlnk == 0)
    then some s
    else (wake fuel s os_time (s os_dly).p_dlnk >>= rest)

pub dec_dly : ℕ → Store → ℕ → Option Store
dec_dly fuel s os_time =
    if (s os_dly).p_dlnk == 0
    then some s
    else expire fuel fuel (set_delta s os_dly (sub16 (s os_dly).delta_time 1)) os_time

pub rmv_dly : Store → ℕ → Store
rmv_dly s p_task =
    let p_b = (s p_task).p_blnk in
    let s1 = set_dlnk s p_b (s p_task).p_dlnk in
    let next = (s1 p_task).p_dlnk in
    let s2 = set_delta s1 p_b (add16 (s1 p_b).delta_time (s1 p_task).delta_time) in
    let s3 = if next == 0 then set_delta s1 p_b 0 else set_dlnk (set_blnk s2 next p_b) p_task 0 in
    if p_b == 0 then s else set_blnk s3 p_task 0
