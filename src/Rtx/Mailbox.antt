-- ===== src/Rtx/Mailbox.antt =====
-- mbed-rtos/rtx/TARGET_CORTEX_M/rt_Mailbox.c: the ring of messages of a mailbox, and the tasks that
-- wait to send (state 2), to receive (state 1) or for memory (state 3).
pub mod Ring
pub mod Laws
mod Tests
use remotus_hardware.Base.{
  ℕ, ◌+◌, ◌-◌, ◌/◌, ◌%◌, ◌^◌, not, ◌&&◌, ◌||◌, Option, none, some, ◌>>=◌, ◌==◌, ltb, if◌then◌else◌,
  List, get_elem?, set, replicate,
}
use remotus_hardware.Rtx.Block.{Store, modify, add16, sub16}
use remotus_hardware.Rtx.Block.State
use remotus_hardware.Rtx.Block.CbType
use remotus_hardware.Rtx.Block.Rc
use remotus_hardware.Rtx.MemBox.{alloc_box}
use remotus_hardware.Rtx.PostQueue.{psq_enq}
use remotus_hardware.Rtx.Kernel.{Kernel, Mcb, put, ret_val, ret_val2}
use remotus_hardware.Rtx.Task.{dispatch, make_ready, block}
use remotus_hardware.Rtx.Waiting.{wait_at, take_first}

abbrev pub set_mailbox : Kernel → ℕ → Mcb → Kernel
set_mailbox k mailbox m = record k { mailboxes = put k.mailboxes mailbox m }

-- The struct has 20 bytes, with one pointer of the array `msg` among them, which has `size` entries.
pub mbx_init : Kernel → ℕ → ℕ → List ℕ → Kernel
mbx_init k mailbox mbx_size msg =
    let entries = (mbx_size + 4 + 2 ^ 32 - 20) % 2 ^ 32 / 4 % 2 ^ 16 in
    record k {
      blocks = modify k.blocks mailbox (λ b. record b { cb_type = CbType.mcb; p_lnk = 0 });
      mailboxes = put k.mailboxes mailbox (record {
        state = 0;
        isr_st = 0;
        first = 0;
        last = 0;
        count = 0;
        size = entries;
        msg = msg;
      });
    }

-- `if (++i == size) i = 0`
abbrev pub next_at : ℕ → ℕ → ℕ
next_at i size = if add16 i 1 == size then 0 else add16 i 1

-- The message goes into the ring at `first`; the count is the caller's.
pub store_msg : Mcb → ℕ → Option Mcb
store_msg m p_msg = get_elem? m.msg m.first >>= λ old.
    some (record m { msg = set m.msg m.first p_msg; first = next_at m.first m.size })

-- The message at `last`.
pub load_msg : Mcb → Option (ℕ × Mcb)
load_msg m =
    get_elem? m.msg m.last >>= λ message. some (message, record m { last = next_at m.last m.size })

pub mbx_check : Kernel → ℕ → ℕ
mbx_check k mailbox = (k.mailboxes mailbox).size - (k.mailboxes mailbox).count

-- isr_mbx_send and isr_mbx_receive, less rt_psh_req, which asks the processor for rt_pop_req.
pub isr_mbx_send : Kernel → ℕ → ℕ → Option Kernel
isr_mbx_send k mailbox p_msg = psq_enq k.psq mailbox p_msg >>= λ psq. some (record k { psq = psq })

-- The result, `*message` and the kernel; `old` is what `*message` was.
pub isr_mbx_receive : Kernel → ℕ → ℕ → Option (ℕ × ℕ × Kernel)
isr_mbx_receive k mailbox old =
    let m = k.mailboxes mailbox in
    if m.count == 0 then some (Rc.ok, old, k) else (do
      (message, m1) ← load_msg m
      psq ← (if m.state == 2 then psq_enq k.psq mailbox 0 else some k.psq)
      some (
        Rc.mbx,
        message,
        set_mailbox (record k { psq = psq }) mailbox (record m1 { count = sub16 m.count 1 }),
      ))

module _ (fuel : ℕ) where
  -- The running task waits; `state` is that of the mailbox when it is the first one.
  pub wait_mbx : Kernel → ℕ → ℕ → Option Kernel
  wait_mbx k mailbox state = do
    blocks ← wait_at fuel k.blocks mailbox k.run
    let m = k.mailboxes mailbox
    let m1 = if (k.blocks mailbox).p_lnk == 0 then record m { state = state } else m
    some (set_mailbox (record k { blocks = blocks }) mailbox m1)

  pub mbx_send : Kernel → ℕ → ℕ → ℕ → Option (ℕ × Kernel)
  mbx_send k mailbox p_msg timeout =
      let m = k.mailboxes mailbox in
      if not ((k.blocks mailbox).p_lnk == 0) && m.state == 1
      then (do
        (task, k1) ← take_first k mailbox (λ k1 task. ret_val2 k1 task 0x10 p_msg)
        k2 ← dispatch fuel k1 task
        some (Rc.ok, k2))
      else if m.count == m.size
      then (if timeout == 0 then some (Rc.tmo, k) else (do
        k1 ← wait_mbx k mailbox 2
        let k2 = record k1 { blocks = modify k1.blocks k.run (λ b. record b { msg = p_msg }) }
        k3 ← block fuel k2 timeout State.wait_mbx
        some (Rc.tmo, k3)))
      else (do
        m1 ← store_msg m p_msg
        some (Rc.ok, set_mailbox k mailbox (record m1 { count = add16 m.count 1 })))

  -- The result, `*message` and the kernel.
  pub mbx_wait : Kernel → ℕ → ℕ → ℕ → Option (ℕ × ℕ × Kernel)
  mbx_wait k mailbox old timeout =
      let m = k.mailboxes mailbox in
      let p_lnk = (k.blocks mailbox).p_lnk in
      if m.count == 0
      then (if timeout == 0 then some (Rc.tmo, old, k) else (do
        k1 ← wait_mbx k mailbox 1
        k2 ← block fuel k1 timeout State.wait_mbx
        some (Rc.tmo, old, k2)))
      else (do
        (message, m1) ← load_msg m
        if not (p_lnk == 0) && m.state == 2
            then (do
              (task, k1) ←
                  take_first (set_mailbox k mailbox m1) mailbox (λ k1 task. ret_val k1 task 0)
              m2 ← store_msg m1 (k1.blocks task).msg
              k2 ← dispatch fuel (set_mailbox k1 mailbox m2) task
              some (Rc.ok, message, k2))
            else some
                (Rc.ok, message, set_mailbox k mailbox (record m1 { count = sub16 m.count 1 })))

  -- A task that waits is handed its result and becomes ready.
  pub hand_over : Kernel → ℕ → (Kernel → ℕ → Kernel) → Option (ℕ × Kernel)
  hand_over k p_cb result = do
    (task, k1) ← take_first k p_cb result
    k2 ← make_ready fuel k1 task
    some (task, k2)

  -- the label 3 of the switch, with the box in `p_msg`
  pub psh_alloc : Kernel → ℕ → ℕ → Option Kernel
  psh_alloc k p_cb box =
      let (block, mem) = alloc_box k.mem box in
      let k1 = record k { mem = mem } in
      if block == 0
      then some k1
      else (hand_over k1 p_cb (λ k2 task. ret_val k2 task block) >>= λ (task, k2). some k2)

  -- the label 2
  pub psh_sender : Kernel → ℕ → Option Kernel
  psh_sender k p_cb = do
    (task, k1) ← hand_over k p_cb (λ k1 task. ret_val k1 task 0)
    let m = k1.mailboxes p_cb
    m1 ← store_msg m (k1.blocks task).msg
    some (set_mailbox k1 p_cb (record m1 { count = add16 m.count 1 }))

  pub mbx_psh : Kernel → ℕ → ℕ → Option Kernel
  mbx_psh k p_cb p_msg =
      let m = k.mailboxes p_cb in
      if (k.blocks p_cb).p_lnk == 0
      then (if ltb m.count m.size
          then (do
            m1 ← store_msg m p_msg
            some (set_mailbox k p_cb (record m1 { count = add16 m.count 1 })))
          else none)
      else if m.state == 3
      then psh_alloc k p_cb p_msg
      else if m.state == 2
      then psh_sender k p_cb
      else if m.state == 1
      then (hand_over k p_cb (λ k1 task. ret_val2 k1 task 0x10 p_msg) >>= λ (task, k1). some k1)
      else some k
