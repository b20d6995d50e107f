-- ===== src/Rtx/Block/Rc.antt =====
-- mbed-rtos/rtx/TARGET_CORTEX_M/rt_Task.h: return codes.
use remotus_hardware.Base.{ℕ}

abbrev pub tmo : ℕ
tmo = 1

abbrev pub evt : ℕ
evt = 2

abbrev pub mbx : ℕ
mbx = 4

abbrev pub ok : ℕ
ok = 0

abbrev pub nok : ℕ
nok = 0xff
