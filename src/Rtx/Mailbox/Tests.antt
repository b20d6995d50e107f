-- ===== src/Rtx/Mailbox/Tests.antt =====
-- A mailbox of three places with two messages, around the end of the array.
use remotus_hardware.Base.{ℕ, zero, suc, ◌<◌, ◌≡◌, refl, some, [], ◌∷◌, get_elem?, arith}
use remotus_hardware.Rtx.Block.Rc
use remotus_hardware.Rtx.Kernel.{Kernel, Mcb}
use remotus_hardware.Rtx.Mailbox.{mbx_send, mbx_wait, set_mailbox}
use remotus_hardware.Rtx.Mailbox.Ring.{IsRing, place}
use remotus_hardware.Rtx.Mailbox.Laws.{SameMailbox, mbx_send_lem, mbx_wait_lem}
use remotus_hardware.Rtx.Sample.{kernel}

abbrev mailbox : Mcb
mailbox = record {
  state = 0;
  isr_st = 0;
  first = 1;
  last = 2;
  count = 2;
  size = 3;
  msg = 31 ∷ 0 ∷ 30 ∷ [];
}

-- The mailbox stands at 20, where no task waits.
abbrev posted : Kernel
posted = set_mailbox kernel 20 mailbox

mailbox-held : (i : ℕ) → i < 2 → get_elem? mailbox.msg (place 2 3 i) ≡ get_elem? (30 ∷ 31 ∷ []) i
mailbox-held zero h = refl
mailbox-held (suc zero) h = refl
mailbox-held (suc (suc i)) h = absurd (omega arith)

mailbox-IsRing : IsRing mailbox (30 ∷ 31 ∷ [])
mailbox-IsRing = record {
  count_is = refl;
  fits = omega arith;
  small = omega arith;
  array = refl;
  last_in = omega arith;
  first_is = refl;
  held = mailbox-held;
}

mbx_send_lem_example :
    (m : Mcb) × (mbx_send 9 posted 20 32 0 ≡ some (Rc.ok, set_mailbox posted 20 m))
    × SameMailbox mailbox m
    × IsRing m (30 ∷ 31 ∷ 32 ∷ [])
mbx_send_lem_example =
    mbx_send_lem 9 posted 20 32 0 (30 ∷ 31 ∷ []) refl mailbox-IsRing (omega arith)

mbx_wait_lem_example :
    (m : Mcb) × (mbx_wait 9 posted 20 0 5 ≡ some (Rc.ok, 30, set_mailbox posted 20 m))
    × SameMailbox mailbox m
    × IsRing m (31 ∷ [])
mbx_wait_lem_example = mbx_wait_lem 9 posted 20 0 5 30 (31 ∷ []) refl mailbox-IsRing
