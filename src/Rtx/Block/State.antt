-- ===== src/Rtx/Block/State.antt =====
-- mbed-rtos/rtx/TARGET_CORTEX_M/rt_Task.h: values of `state`.
use remotus_hardware.Base.{ℕ}

abbrev pub inactive : ℕ
inactive = 0

abbrev pub ready : ℕ
ready = 1

abbrev pub running : ℕ
running = 2

abbrev pub wait_dly : ℕ
wait_dly = 3

abbrev pub wait_itv : ℕ
wait_itv = 4

abbrev pub wait_or : ℕ
wait_or = 5

abbrev pub wait_and : ℕ
wait_and = 6

abbrev pub wait_sem : ℕ
wait_sem = 7

abbrev pub wait_mbx : ℕ
wait_mbx = 8

abbrev pub wait_mut : ℕ
wait_mut = 9
