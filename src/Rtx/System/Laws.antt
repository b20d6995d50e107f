-- ===== src/Rtx/System/Laws.antt =====
-- rt_resume of rt_System.c: the time after a sleep that outlasts the delays.
use remotus_hardware.Base.{
  ℕ, zero, suc, ◌+◌, ◌-◌, ◌%◌, ◌^◌, ◌≤◌, ◌<◌, ◌≡◌, refl, List, [], ◌∷◌, false, true, leb, ==-same,
  length, arith, some, count, not_eq,
}
use remotus_hardware.Rtx.Block.{Store, os_rdy, os_dly, set_delta}
use remotus_hardware.Rtx.Block.State
use remotus_hardware.Rtx.DelayList.{dec_dly}
use remotus_hardware.Rtx.DelayList.Links.{IsDelay}
use remotus_hardware.Rtx.DelayList.Tick.{dec_dly_lem}
use remotus_hardware.Rtx.PrioList.{is_sem_mbx}
use remotus_hardware.Rtx.PrioList.Laws.{IsChain, IsChain-Same}
use remotus_hardware.Rtx.PrioList.Order.{IsOrdered, IsOrdered-same}
use remotus_hardware.Rtx.Kernel.{Kernel}
use remotus_hardware.Rtx.System.{advance_time, tick_delays, resume_ticks, resume_delays}

-- With no task delayed the loop ends, whatever is left of the sleep.
resume_ticks-idle :
    (fuel n : ℕ) (k : Kernel) → (k.blocks os_dly).p_dlnk ≡ 0 → resume_ticks fuel n k ≡ some k
unfolding resume_ticks
resume_ticks-idle fuel zero k idle = rw idle refl
resume_ticks-idle fuel (suc n) k idle = rw idle refl

-- The loop after a tick that woke the last task.
resume_ticks-last :
    (fuel n : ℕ) (k : Kernel) (s : Store)
    → 0 < (k.blocks os_dly).p_dlnk
    → dec_dly fuel k.blocks k.os_time ≡ some s
    → (s os_dly).p_dlnk ≡ 0
    → resume_ticks fuel (suc n) k ≡ some (advance_time (record k { blocks = s }) 1)
unfolding resume_ticks tick_delays advance_time
resume_ticks-last fuel n k s busy ran idle =
    rw (not_eq (k.blocks os_dly).p_dlnk 0 (omega arith), ran)
      (resume_ticks-idle fuel n (advance_time (record k { blocks = s }) 1) idle)

outlasts : (e n : ℕ) → leb e (e + suc n) ≡ true
outlasts e n = grind arith

left_over : (e n : ℕ) → e + suc n - e ≡ suc n
left_over e n = omega arith

-- rt_resume's update of the delays, with one task delayed and awake `n + 1` ticks before the end of the
-- sleep, on no list of an object, and with more rounds than tasks are ready or delayed: the call
-- returns, the task is ready and no task is delayed, but the time has moved on only by the delay and
-- one tick, whatever `n` is.
pub resume_delays-lags :
    (fuel : ℕ) (k : Kernel) (ts : List ℕ) (t e n : ℕ)
    → length ts + 1 < fuel
    → is_sem_mbx (k.blocks os_rdy).cb_type ≡ false
    → (k.blocks t).p_rlnk ≡ 0
    → ((x : ℕ) → count x (os_rdy ∷ os_dly ∷ t ∷ []) + count x ts ≤ 1)
    → IsChain k.blocks os_rdy ts
    → IsOrdered k.blocks ts
    → 0 < e
    → IsDelay k.blocks os_dly 0 ((t, e) ∷ [])
    → (k' : Kernel) × (resume_delays fuel k (e + suc n) ≡ some k')
      × (k'.os_time ≡ (k.os_time + e + 1) % 2 ^ 32)
      × ((k'.blocks os_dly).p_dlnk ≡ 0)
      × ((k'.blocks t).state ≡ State.ready)
unfolding resume_delays advance_time
resume_delays-lags fuel k ts t e n enough plain no_list once c ordered later
      (link, some_t, blnk, time, small, (end, zero_left)) =
    let s1 = set_delta k.blocks os_dly 1 in
    let now = (k.os_time + e) % 2 ^ 32 in
    let (s2, ran, (idle, no_delta), ready, prios, states, rest) =
      dec_dly_lem fuel s1 now ts ((t, 1) ∷ []) enough plain (λ x k. grind arith) once
        (IsChain-Same k.blocks s1 os_rdy ts (λ x j. grind arith) c)
        (IsOrdered-same k.blocks s1 ts (λ x. grind arith) ordered) (omega arith)
        (link, some_t, grind arith, refl, omega arith, (grind arith, grind arith)) in
    let slept : Kernel = record k { os_time = now; blocks = s1 } in
    let k' = advance_time (record slept { blocks = s2 }) 1 in
    let loop = resume_ticks-last fuel n slept s2 (rw link some_t) ran idle in
    let same_first : (k.blocks os_dly).delta_time ≡ e = omega (arith, time) in
    (
      k',
      rw (link, not_eq t 0 (omega arith)) (rw (same_first, outlasts e n, left_over e n) loop),
      omega arith,
      idle,
      states t (grind (arith, ==-same t)),
    )
