-- ===== src/Rtx/Event/Tests.antt =====
-- A task that waits for two flags and gets the second.
use remotus_hardware.Base.{
  ◌∷◌, [], arith, refl, ℕ, List, some, count, ◌≡◌, if◌then◌else◌, ◌==◌, inl,
}
use remotus_hardware.Rtx.Block.{Store}
use remotus_hardware.Rtx.Block.State
use remotus_hardware.Rtx.Kernel.{Kernel}
use remotus_hardware.Rtx.Task.Ready.{IsReady, IsReady-agree}
use remotus_hardware.Rtx.Event.{evt_set, active_tcb}
use remotus_hardware.Rtx.Event.Laws.{evt_set-wakes}
use remotus_hardware.Rtx.Sample.{kernel, blocks, sample-IsReady}

-- Task 12 has the flag 1 and waits for the flags 1 and 2.
abbrev listening : Store
listening = λ x.
    if x == 12
    then record (blocks 12) { state = State.wait_and; events = 1; waits = 3 }
    else blocks x

abbrev twelve : Kernel
twelve = record kernel { blocks = listening; max_tasks = 12 }

listening-IsReady : IsReady listening 3 (4 ∷ 5 ∷ [])
listening-IsReady =
    IsReady-agree blocks listening 3 (4 ∷ 5 ∷ []) (λ x. grind arith) (λ x k. grind arith)
      sample-IsReady

evt_set-wakes_example :
    (k1 : Kernel) × (evt_set 9 twelve 2 10 ≡ some k1)
    × (k1.regs 12 ≡ (8, 3))
    × ((ts' : List ℕ) × IsReady k1.blocks k1.new_tsk ts'
        × ((x : ℕ) → count x (k1.new_tsk ∷ ts') ≡ count x (12 ∷ 3 ∷ 4 ∷ 5 ∷ [])))
    × ((x : ℕ) → (k1.blocks x).prio ≡ (listening x).prio)
unfolding active_tcb
evt_set-wakes_example =
    evt_set-wakes 9 twelve 2 10 12 (4 ∷ 5 ∷ []) (omega arith) refl (omega arith) refl refl
      listening-IsReady (inl (refl, refl))
