-- ===== src/Rtx/PrioList/Tests.antt =====
-- A ready list of two tasks on which the theorems about lists are run.
use remotus_hardware.Base.{
  true, ℕ, ◌≤◌, ◌<◌, ◌≡◌, refl, some, List, [], ◌∷◌, arith, count, ◌==◌, if◌then◌else◌,
}
use remotus_hardware.Rtx.PrioList.{put_prio}
use remotus_hardware.Rtx.Block.{Block, Store}
use remotus_hardware.Rtx.Block.State
use remotus_hardware.Rtx.PrioList.Laws.{IsChain, Inserted}
use remotus_hardware.Rtx.PrioList.Back.{Linked, put_prio_lem}
use remotus_hardware.Rtx.PrioList.Order.{IsOrdered, put_prio-IsOrdered}

-- The head of the ready list stands at 1, its tasks of priority 5 and 2 at 2 and 3, and a task of
-- priority 3 that is in no list at 4.
abbrev block : ℕ → ℕ → ℕ → Block
block cb_type prio p_lnk = record {
  cb_type = cb_type;
  state = State.ready;
  prio = prio;
  task_id = 0;
  p_lnk = p_lnk;
  p_rlnk = 0;
  p_dlnk = 0;
  p_blnk = 0;
  delta_time = 0;
  interval_time = 0;
  events = 0;
  waits = 0;
  msg = 0;
}

abbrev ready : Store
ready = λ x.
    if x == 1
    then block 4 0 2
    else if x == 2
    then block 0 5 3
    else if x == 3
    then block 0 2 0
    else block 0 3 0

abbrev tasks : List ℕ
tasks = 2 ∷ 3 ∷ []

tasks-once : (x : ℕ) → count x (1 ∷ tasks) ≤ 1
tasks-once x = grind arith

tasks-IsChain : IsChain ready 1 tasks
tasks-IsChain = (refl, omega arith, (refl, omega arith, refl))

tasks-IsOrdered : IsOrdered ready tasks
tasks-IsOrdered = (higher, (none_below, tt))
  where
    only : (x : ℕ) → 0 < count x (3 ∷ []) → x ≡ 3
    only x k = grind arith

    higher : (x : ℕ) → 0 < count x (3 ∷ []) → (ready x).prio ≤ (ready 2).prio
    higher x k = rw (only x k) (omega arith)

    none_below : (x : ℕ) → 0 < count x [] → (ready x).prio ≤ (ready 3).prio
    none_below x k = absurd (omega arith)

-- The same tasks on a semaphore, linked back.
abbrev waiting : Store
waiting = λ x.
    if x == 1
    then block 2 0 2
    else if x == 2
    then record (block 0 5 3) { p_rlnk = 1 }
    else if x == 3
    then record (block 0 2 0) { p_rlnk = 2 }
    else block 0 3 0

put_prio_lem_example :
    Inserted (put_prio 3 waiting 1 4) waiting 4 1 tasks
    × Linked (put_prio 3 waiting 1 4) true waiting 4 1 tasks
put_prio_lem_example =
    put_prio_lem 3 waiting 1 4 tasks (omega arith) (omega arith) refl tasks-once
      (refl, omega arith, (refl, omega arith, refl)) (λ _. (refl, (refl, tt)))

put_prio-IsOrdered_example :
    (s' : Store) × (put_prio 3 ready 1 4 ≡ some s')
    × ((ts' : List ℕ) × IsChain s' 1 ts'
        × IsOrdered s' ts'
        × ((x : ℕ) → count x ts' ≡ count x (4 ∷ tasks)))
put_prio-IsOrdered_example =
    put_prio-IsOrdered 3 ready 1 4 tasks (omega arith) (omega arith) refl tasks-once tasks-IsChain
      tasks-IsOrdered
