-- ===== src/Rtx/Semaphore/Tests.antt =====
-- The theorems about semaphores, run on the kernel of Rtx/Sample.
use remotus_hardware.Base.{◌∷◌, [], arith, refl, ℕ, List, some, count, ◌≡◌}
use remotus_hardware.Rtx.Block.{Store}
use remotus_hardware.Rtx.Block.Rc
use remotus_hardware.Rtx.PrioList.Laws.{IsChain}
use remotus_hardware.Rtx.DelayList.Links.{IsDelay, insert_time}
use remotus_hardware.Rtx.Kernel.{ret_val}
use remotus_hardware.Rtx.Task.Ready.{IsReady}
use remotus_hardware.Rtx.Semaphore.{sem_wait, sem_send}
use remotus_hardware.Rtx.Semaphore.Laws.{sem_wait-blocks, sem_send-wakes}
use remotus_hardware.Rtx.Sample.{
  kernel, blocks, delays, sample-IsReady, sample-CanWait, waiting-IsChain, all-once,
}

sem_wait-blocks_example :
    (s : Store) × (sem_wait 9 kernel 8 20
      ≡ some (Rc.tmo, record kernel { new_tsk = 4; blocks = s }))
    × IsReady s 4 (5 ∷ [])
    × IsChain s 8 (6 ∷ 3 ∷ 7 ∷ [])
    × IsDelay s 2 0 (insert_time 3 20 delays)
    × ((x : ℕ) → (s x).prio ≡ (blocks x).prio)
sem_wait-blocks_example =
    sem_wait-blocks 9 kernel 8 20 4 (5 ∷ []) (6 ∷ 7 ∷ []) delays (omega arith) (omega arith)
      (omega arith) (omega arith) refl sample-CanWait

sem_send-wakes_example :
    (run : ℕ) × (s : Store) × (sem_send 9 kernel 8
      ≡ some (Rc.ok, record (ret_val kernel 6 1) { new_tsk = run; blocks = s }))
    × ((ts' : List ℕ) × IsReady s run ts'
        × ((x : ℕ) → count x (run ∷ ts') ≡ count x (6 ∷ 3 ∷ 4 ∷ 5 ∷ [])))
    × IsChain s 8 (7 ∷ [])
    × ((x : ℕ) → (s x).prio ≡ (blocks x).prio)
sem_send-wakes_example =
    sem_send-wakes 9 kernel 8 6 (4 ∷ 5 ∷ []) (7 ∷ []) (omega arith) refl sample-IsReady
      waiting-IsChain all-once
