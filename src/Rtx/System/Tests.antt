-- ===== src/Rtx/System/Tests.antt =====
-- The theorem about rt_resume, run on the kernel of Rtx/Sample with one task delayed.
use remotus_hardware.Base.{◌∷◌, [], arith, refl, ℕ, count, ◌+◌, ◌≤◌, ◌≡◌, if◌then◌else◌, ◌==◌, some}
use remotus_hardware.Rtx.Block.{os_dly}
use remotus_hardware.Rtx.Block.State
use remotus_hardware.Rtx.Kernel.{Kernel}
use remotus_hardware.Rtx.PrioList.Order.{IsOrdered-same}
use remotus_hardware.Rtx.System.{resume_delays}
use remotus_hardware.Rtx.System.Laws.{resume_delays-lags}
use remotus_hardware.Rtx.Sample.{kernel, blocks, ready-IsOrdered}

-- Task 9 alone is delayed, by 20 ticks.
abbrev drowsy : Kernel
drowsy = record kernel {
  blocks = λ x.
      if x == 2
      then record (blocks 2) { p_dlnk = 9; delta_time = 20 }
      else if x == 9
      then record (blocks 9) { p_blnk = 2 }
      else blocks x;
}

drowsy-once : (x : ℕ) → count x (1 ∷ 2 ∷ 9 ∷ []) + count x (4 ∷ 5 ∷ []) ≤ 1
drowsy-once x = grind arith

resume_delays-lags_example :
    (k' : Kernel) × (resume_delays 9 drowsy 50 ≡ some k')
    × (k'.os_time ≡ 121)
    × ((k'.blocks os_dly).p_dlnk ≡ 0)
    × ((k'.blocks 9).state ≡ State.ready)
resume_delays-lags_example =
    resume_delays-lags 9 drowsy (4 ∷ 5 ∷ []) 9 20 29 (omega arith) refl refl drowsy-once
      (refl, omega arith, (refl, omega arith, refl))
      (IsOrdered-same blocks (drowsy.blocks) (4 ∷ 5 ∷ []) (λ x. grind arith) ready-IsOrdered)
      (omega arith) (refl, omega arith, refl, refl, omega arith, (refl, refl))
