-- ===== src/Rtx/Block/CbType.antt =====
-- mbed-rtos/rtx/TARGET_CORTEX_M/rt_List.h: values of `cb_type`.
use remotus_hardware.Base.{ℕ}

abbrev pub tcb : ℕ
tcb = 0

abbrev pub mcb : ℕ
mcb = 1

abbrev pub scb : ℕ
scb = 2

abbrev pub mucb : ℕ
mucb = 3

abbrev pub hcb : ℕ
hcb = 4
