-- ===== src/Rtx/Mutex/Tests.antt =====
-- The theorems about mutexes, run on the kernel of Rtx/Sample.
use remotus_hardware.Base.{◌∷◌, [], arith, refl, ℕ, List, some, count, ◌≡◌}
use remotus_hardware.Rtx.Block.Rc
use remotus_hardware.Rtx.PrioList.Laws.{IsChain}
use remotus_hardware.Rtx.Kernel.{Kernel}
use remotus_hardware.Rtx.Task.Ready.{IsReady}
use remotus_hardware.Rtx.Mutex.{mut_release}
use remotus_hardware.Rtx.Mutex.Release.{mut_release-passes}
use remotus_hardware.Rtx.Sample.{kernel, sample-CanRelease}

mut_release-passes_example :
    (k1 : Kernel) × (mut_release 9 kernel 8 ≡ some (Rc.ok, k1))
    × (k1.mutexes 8 ≡ record { prio = 5; level = 1; owner = 6 })
    × ((k1.regs 6).0 ≡ 0)
    × ((ts' : List ℕ) × IsReady k1.blocks k1.new_tsk ts'
        × ((x : ℕ) → count x (k1.new_tsk ∷ ts') ≡ count x (6 ∷ 3 ∷ 4 ∷ 5 ∷ [])))
    × IsChain k1.blocks 8 (7 ∷ [])
    × ((k1.blocks 3).prio ≡ 2)
mut_release-passes_example =
    mut_release-passes 9 kernel 8 4 6 (5 ∷ []) (7 ∷ []) (omega arith) refl refl sample-CanRelease
