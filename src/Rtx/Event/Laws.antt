-- ===== src/Rtx/Event/Laws.antt =====
-- A task that waits for events and gets them.
use Prim.Native.Nat.{bit_and, bit_or}
use remotus_hardware.Base.{
  ℕ, ℕ_discrete, ◌<◌, ◌≡◌, refl, sym, ap, ◌∙◌, List, ◌∷◌, if◌then◌else◌, ◌==◌, arith, count, Option,
  some, length, not_eq, ==-same, ◌⊎◌, inl, inr,
}
use remotus_hardware.Rtx.Block.{Block, Store, os_rdy, modify, set_state}
use remotus_hardware.Rtx.Block.State
use remotus_hardware.Rtx.DelayList.{rmv_dly}
use remotus_hardware.Rtx.DelayList.Remove.{rmv_dly-keeps}
use remotus_hardware.Rtx.Kernel.{Kernel, ret_val2}
use remotus_hardware.Rtx.Task.{dispatch}
use remotus_hardware.Rtx.Task.Ready.{IsReady, IsReady-agree}
use remotus_hardware.Rtx.Task.Schedule.{dispatch-Runs, state-lnk, state_prio-same}
use remotus_hardware.Rtx.Event.{active_tcb, evt_set, evt_check, met, wake_up, add_events, clear}

-- What a task that waits for the flags `waits` of the flags `events` finds in R1, with the state that
-- says whether it waits for all or for any of them.
abbrev pub found : ℕ → ℕ → ℕ → ℕ
found state events waits = if state == State.wait_and then waits else bit_and waits events

-- The flags end its wait: all that it waits for are there, or any of them.
abbrev pub Ends : ℕ → ℕ → ℕ → Type 0
Ends state events waits =
    ((state ≡ State.wait_and) × (bit_and events waits ≡ waits))
    ⊎ ((state ≡ State.wait_or) × (0 < bit_and events waits))

met_lem :
    (b : Block)
    → Ends b.state b.events b.waits
    → (b1 : Block) × (met b ≡ some b1)
      × (b1.waits ≡ found b.state b.events b.waits)
      × (b1.p_lnk ≡ b.p_lnk)
      × (b1.prio ≡ b.prio)
unfolding met
met_lem b (inl (state, all)) = (
  record b { events = clear b.events b.waits },
  rw (state, all, ==-same b.waits) refl,
  rw state refl,
  refl,
  refl,
)
met_lem b (inr (state, any)) = (
  record b { waits = bit_and b.waits b.events; events = clear b.events b.waits },
  rw (state, not_eq (bit_and b.events b.waits) 0 (omega arith)) refl,
  rw state refl,
  refl,
  refl,
)

-- The store after the wait of a task at `p` has ended, with `b` as its block.
module _ (s : Store) (p : ℕ) (b : Block) (lnk : b.p_lnk ≡ (s p).p_lnk)
    (prio : b.prio ≡ (s p).prio) where
  written :
      (x : ℕ)
      → ((modify s p (λ b0. b) x).p_lnk ≡ (s x).p_lnk)
        × ((modify s p (λ b0. b) x).prio ≡ (s x).prio)
  written x = elim (ℕ_discrete x p) [
    | yes here ↦ rw (here, ==-same p) (lnk, prio)
    | no there ↦ rw (not_eq x p there) (refl, refl)
  ]

  woken :
      (x : ℕ)
      → ((set_state (rmv_dly (modify s p (λ b0. b)) p) p State.ready x).p_lnk ≡ (s x).p_lnk)
        × ((set_state (rmv_dly (modify s p (λ b0. b)) p) p State.ready x).prio ≡ (s x).prio)
  woken x =
      let s1 = modify s p (λ b0. b) in
      let (lnk1, prio1) = written x in
      let (lnk2, prio2) = rmv_dly-keeps s1 p x in
      (
        state-lnk (rmv_dly s1 p) p State.ready x ∙ lnk2 ∙ lnk1,
        state_prio-same s (rmv_dly s1 p) p State.ready x (prio2 ∙ prio1),
      )

evt_check-met :
    (fuel : ℕ) (k : Kernel) (p : ℕ) (resume : Kernel → ℕ → Option Kernel) (b : Block)
    → met (k.blocks p) ≡ some b
    → evt_check fuel k p resume ≡ resume (wake_up k p b) p
unfolding evt_check
evt_check-met fuel k p resume b ran = rw (evt_check, ran) refl

evt_set-met :
    (fuel : ℕ) (k : Kernel) (flags task_id p : ℕ) (b : Block)
    → active_tcb k task_id ≡ some p
    → 0 < p
    → met (record (k.blocks p) { events = bit_or (k.blocks p).events flags }) ≡ some b
    → evt_set fuel k flags task_id ≡ dispatch fuel (wake_up (add_events k p flags) p b) p
unfolding evt_set
evt_set-met fuel k flags task_id p b active some_p ran =
    rw (active, not_eq p 0 (omega arith))
      (evt_check-met fuel (add_events k p flags) p (dispatch fuel) b (rw (==-same p) ran))

added :
    (k : Kernel) (p flags x : ℕ)
    → (((add_events k p flags).blocks x).p_lnk ≡ (k.blocks x).p_lnk)
      × (((add_events k p flags).blocks x).prio ≡ (k.blocks x).prio)
added k p flags x = (grind arith, grind arith)

-- rt_evt_set for the number of a task whose wait ends with the flags that are set and those it had:
-- with more rounds than tasks are ready, no ready task above the running one, and no switch to another
-- task under way (new_tsk is the running task), the task finds
-- osEventSignal in R0 and the flags that ended its wait in R1, and of all tasks that can run one of
-- the highest priority runs; the others are on the ready list in order. No priority changes.
pub evt_set-wakes :
    (fuel : ℕ) (k : Kernel) (flags task_id p : ℕ) (ts : List ℕ)
    → length ts < fuel
    → active_tcb k task_id ≡ some p
    → 0 < p
    → count p (os_rdy ∷ k.run ∷ ts) ≡ 0
    → k.new_tsk ≡ k.run
    → IsReady k.blocks k.run ts
    → Ends (k.blocks p).state (bit_or (k.blocks p).events flags) (k.blocks p).waits
    → (k1 : Kernel) × (evt_set fuel k flags task_id ≡ some k1)
      × (k1.regs p
          ≡ (0x08, found (k.blocks p).state (bit_or (k.blocks p).events flags) (k.blocks p).waits))
      × ((ts' : List ℕ) × IsReady k1.blocks k1.new_tsk ts'
          × ((x : ℕ) → count x (k1.new_tsk ∷ ts') ≡ count x (p ∷ k.run ∷ ts)))
      × ((x : ℕ) → (k1.blocks x).prio ≡ (k.blocks x).prio)
unfolding wake_up ret_val2
evt_set-wakes fuel k flags task_id p ts enough active some_p fresh none_new r ends =
    let b0 : Block = record (k.blocks p) { events = bit_or (k.blocks p).events flags } in
    let (b, ran, r1, lnk, prio) = met_lem b0 ends in
    let k0 = add_events k p flags in
    let s = set_state (rmv_dly (modify k0.blocks p (λ b1. b)) p) p State.ready in
    let same = λ (x : ℕ).
      woken k0.blocks p b (lnk ∙ sym (added k p flags p).0) (prio ∙ sym (added k p flags p).1) x in
    let prios = λ (x : ℕ). (same x).1 ∙ (added k p flags x).1 in
    let k2 : Kernel = ret_val2 (record k0 { blocks = s }) p 0x08 b.waits in
    let (run, s', dispatched, ready, links, same_prio) =
      dispatch-Runs fuel k2 p ts enough none_new
        (IsReady-agree k.blocks s k.run ts prios (λ x l. (same x).0 ∙ (added k p flags x).0) r)
        fresh some_p in
    (
      record k2 { new_tsk = run; blocks = s' },
      evt_set-met fuel k flags task_id p b active some_p ran ∙ dispatched,
      rw (==-same p) (ap (λ w. (0x08, w)) r1),
      ready,
      (λ x. same_prio x ∙ prios x),
    )
