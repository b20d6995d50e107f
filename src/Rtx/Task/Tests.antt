-- ===== src/Rtx/Task/Tests.antt =====
-- The theorems about scheduling, run on the kernel of Rtx/Sample.
use remotus_hardware.Base.{◌∷◌, []}
use remotus_hardware.Base.{arith, refl}
use remotus_hardware.Rtx.Task.{dispatch, yield_above, block}
use remotus_hardware.Rtx.Task.Schedule.{Runs, dispatch-Runs}
use remotus_hardware.Rtx.Task.Yield.{yield_above-Runs}
use remotus_hardware.Rtx.Task.Blocking.{RunsFirst, block_lem}
use remotus_hardware.Rtx.Block.State
use remotus_hardware.Rtx.DelayList.Links.{insert_time}
use remotus_hardware.Rtx.Sample.{
  kernel, delays, sample-IsReady, ready-once, first-once, delays-once, ready-IsChain,
  ready-IsOrdered, delays-IsDelay,
}

dispatch-Runs_example : Runs kernel (dispatch 9 kernel 6) (6 ∷ 3 ∷ 4 ∷ 5 ∷ [])
dispatch-Runs_example =
    dispatch-Runs 9 kernel 6 (4 ∷ 5 ∷ []) (omega arith) refl sample-IsReady refl (omega arith)

yield_above-Runs_example : Runs kernel (yield_above 9 kernel 4) (3 ∷ 4 ∷ 5 ∷ [])
yield_above-Runs_example =
    yield_above-Runs 9 kernel 4 (5 ∷ []) (omega arith) refl (omega arith) ready-once ready-IsChain
      ready-IsOrdered

block_lem_example :
    RunsFirst kernel (block 9 kernel 20 State.wait_dly) 4 (5 ∷ []) (insert_time 3 20 delays)
block_lem_example =
    block_lem 9 kernel 20 State.wait_dly 4 (5 ∷ []) delays (omega arith) (omega arith) (omega arith)
      (omega arith) first-once ready-IsChain ready-IsOrdered refl delays-once delays-IsDelay
