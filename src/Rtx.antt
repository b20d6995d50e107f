-- ===== src/Rtx.antt =====
-- mbed-rtos/rtx/TARGET_CORTEX_M: the RTX kernel.
pub mod Block
pub mod MemBox
pub mod PrioList
pub mod DelayList
pub mod PostQueue
pub mod Kernel
pub mod Task
pub mod Waiting
pub mod Semaphore
pub mod Mutex
pub mod Event
pub mod Mailbox
pub mod Time
pub mod Sample
pub mod System
