-- ===== src/Rtx/DelayList/Tests.antt =====
-- The theorems about delays, run on the kernel of Rtx/Sample.
use remotus_hardware.Base.{◌∷◌, [], arith, refl, ℕ, count, ◌+◌, ◌≤◌, ◌<◌, ◌≡◌, if◌then◌else◌, ◌==◌}
use remotus_hardware.Rtx.Block.{Store}
use remotus_hardware.Rtx.DelayList.{put_dly, rmv_dly, dec_dly}
use remotus_hardware.Rtx.DelayList.Links.{IsDelay, tasks}
use remotus_hardware.Rtx.DelayList.Put.{Delayed, put_dly_lem}
use remotus_hardware.Rtx.DelayList.Remove.{rmv_dly_lem}
use remotus_hardware.Rtx.DelayList.Expire.{Ticked}
use remotus_hardware.Rtx.DelayList.Tick.{dec_dly_lem}
use remotus_hardware.Rtx.PrioList.Order.{IsOrdered-same}
use remotus_hardware.Rtx.Sample.{ready-IsOrdered, blocks, delays, delays-once, delays-IsDelay}

put_dly_lem_example : Delayed (put_dly 9 blocks 3 20) blocks 3 20 2 0 delays
put_dly_lem_example =
    put_dly_lem 9 blocks 3 20 delays (omega arith) (omega arith) (omega arith) (omega arith) refl
      delays-once delays-IsDelay

rmv_dly_lem_example : IsDelay (rmv_dly blocks 6) 2 0 ((9, 30) ∷ [])
rmv_dly_lem_example =
    rmv_dly_lem blocks 2 0 6 delays (omega arith) delays-once (omega arith) delays-IsDelay

-- Task 9 alone is delayed, by one tick.
abbrev late : Store
late = λ x.
    if x == 2
    then record (blocks 2) { p_dlnk = 9; delta_time = 1 }
    else if x == 9
    then record (blocks 9) { p_blnk = 2 }
    else blocks x

late-no-list : (x : ℕ) → 0 < count x (tasks ((9, 1) ∷ [])) → (late x).p_rlnk ≡ 0
late-no-list x k = grind arith

late-once : (x : ℕ) → count x (1 ∷ 2 ∷ tasks ((9, 1) ∷ [])) + count x (4 ∷ 5 ∷ []) ≤ 1
late-once x = grind arith

dec_dly_lem_example : Ticked (dec_dly 9 late 100) late (4 ∷ 5 ∷ []) ((9, 0) ∷ [])
dec_dly_lem_example =
    dec_dly_lem 9 late 100 (4 ∷ 5 ∷ []) ((9, 1) ∷ []) (omega arith) refl late-no-list late-once
      (refl, omega arith, (refl, omega arith, refl))
      (IsOrdered-same blocks late (4 ∷ 5 ∷ []) (λ x. grind arith) ready-IsOrdered) (omega arith)
      (refl, omega arith, refl, refl, omega arith, (refl, refl))
