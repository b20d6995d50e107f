-- ===== src/Rtx/DelayList/Leave.antt =====
-- One round of the loop of rt_dec_dly: the first task of the list of delays becomes ready.
use remotus_hardware.Base.{
  ℕ, ◌≤◌, ◌<◌, ◌≡◌, refl, sym, ◌∙◌, Option, some, List, [], ◌∷◌, false, length, arith, count,
}
use remotus_hardware.Rtx.Block.{Store, os_rdy, os_dly}
use remotus_hardware.Rtx.Block.State
use remotus_hardware.Rtx.DelayList.{leave_dly, wake}
use remotus_hardware.Rtx.DelayList.Links.{
  tasks, IsDelay, SameDelay, IsDelay-frame, IsDelay-same, Keeps,
}
use remotus_hardware.Rtx.PrioList.{is_sem_mbx}
use remotus_hardware.Rtx.PrioList.Laws.{
  IsChain, IsChain-Same, insert, put_prio-Inserted, head_differs, tail_differs, head_once,
}
use remotus_hardware.Rtx.PrioList.Order.{IsOrdered, IsOrdered-same, insert-IsOrdered, not_in}
use remotus_hardware.Rtx.PrioList.Frame.{SameRest, SameRest-trans, put_prio-SameRest}

module _ (s : Store) (time t next : ℕ) (link : (s t).p_dlnk ≡ next) (other : ¬ (t ≡ os_dly)) where
  leave-head :
      ((leave_dly s time t os_dly).p_dlnk ≡ next)
      × ((leave_dly s time t os_dly).delta_time ≡ (s t).delta_time)
  unfolding leave_dly
  leave-head = (grind arith, grind arith)

  leave-next : 0 < next → ¬ (next ≡ t) → (leave_dly s time t next).p_blnk ≡ os_dly
  unfolding leave_dly
  leave-next h k = grind arith

  leave-other : (x : ℕ) → ¬ (x ≡ t) → ¬ (x ≡ os_dly) → SameDelay s (leave_dly s time t) x
  unfolding leave_dly
  leave-other x h k = (grind arith, grind arith)

  leave-blnk : (x : ℕ) → ¬ (x ≡ t) → ¬ (x ≡ next) → (leave_dly s time t x).p_blnk ≡ (s x).p_blnk
  unfolding leave_dly
  leave-blnk x h k = grind arith

  leave-Keeps : Keeps s (leave_dly s time t)
  unfolding leave_dly
  leave-Keeps x = (grind arith, grind arith)

  leave-SameRest : (x : ℕ) → ¬ (x ≡ t) → SameRest s (leave_dly s time t) x
  unfolding leave_dly
  leave-SameRest x h = (grind arith, grind arith, grind arith)

  leave-state : (leave_dly s time t t).state ≡ State.ready
  unfolding leave_dly
  leave-state = grind arith

-- The list of delays without its first task, whose time has come.
leave_first :
    (s : Store) (time t : ℕ) (ds : List (ℕ × ℕ))
    → ((x : ℕ) → count x (os_dly ∷ t ∷ tasks ds) ≤ 1)
    → IsDelay s os_dly 0 ((t, 0) ∷ ds)
    → IsDelay (leave_dly s time t) os_dly 0 ds
leave_first s time t [] once (link, some_t, blnk, now, small, (last, zero_left)) =
    let other = λ (e : t ≡ os_dly).
      head_differs os_dly t [] (head_once os_dly (t ∷ []) (once os_dly)) (sym e) in
    let (dlnk, delta) = leave-head s time t 0 last other in (dlnk, delta ∙ zero_left)
leave_first s time t ((t2, e2) ∷ ds) once
      (link, some_t, blnk, now, small, (next, some_t2, blnk2, time2, small2, c)) =
    let none_of = head_once os_dly (t ∷ t2 ∷ tasks ds) (once os_dly) in
    let other = λ (e : t ≡ os_dly). head_differs os_dly t (t2 ∷ tasks ds) none_of (sym e) in
    let no_t = head_once t (t2 ∷ tasks ds) (omega (arith, once t)) in
    let no_t2 = head_once t2 (tasks ds) (omega (arith, once t2)) in
    let (dlnk, delta) = leave-head s time t t2 next other in
    (
      dlnk,
      some_t2,
      leave-next s time t t2 next other some_t2 (λ e. head_differs t t2 (tasks ds) no_t (sym e)),
      rw delta time2,
      small2,
      IsDelay-frame s (leave_dly s time t) t2 e2 ds
          (λ x k.
            leave-other s time t t2 next other x (not_in x t (t2 ∷ tasks ds) no_t k)
              (not_in x os_dly (t2 ∷ tasks ds) (tail_differs os_dly t (t2 ∷ tasks ds) none_of) k))
          (λ x k.
            leave-blnk s time t t2 next other x
              (not_in x t (tasks ds) (tail_differs t t2 (tasks ds) no_t) k)
              (not_in x t2 (tasks ds) no_t2 k))
          c,
    )

-- The task is ready and off the list of delays, by its priority among the ready ones.
abbrev pub Woken : Option Store → Store → ℕ → List ℕ → List (ℕ × ℕ) → Type 0
Woken run s t ts ds =
    (s' : Store) × (run ≡ some s')
    × IsDelay s' os_dly 0 ds
    × IsChain s' os_rdy (insert s t ts)
    × IsOrdered s' (insert s t ts)
    × ((x : ℕ) → (s' x).prio ≡ (s x).prio)
    × ((x : ℕ) → ¬ (x ≡ t) → SameRest s s' x)
    × ((s' t).state ≡ State.ready)

pub wake_lem :
    (fuel : ℕ) (s : Store) (time t : ℕ) (ts : List ℕ) (ds : List (ℕ × ℕ))
    → length ts < fuel
    → is_sem_mbx (s os_rdy).cb_type ≡ false
    → (s t).p_rlnk ≡ 0
    → ((x : ℕ) → count x (os_rdy ∷ ts) ≤ 1)
    → count t (os_rdy ∷ ts) ≡ 0
    → ((x : ℕ) → count x (os_dly ∷ t ∷ tasks ds) ≤ 1)
    → IsChain s os_rdy ts
    → IsOrdered s ts
    → IsDelay s os_dly 0 ((t, 0) ∷ ds)
    → Woken (wake fuel s time t) s t ts ds
unfolding wake
wake_lem fuel s time t ts ds enough plain no_list once fresh once_d c ordered d =
    let (link, some_t, blnk, now, small, rest) = d in
    let other = λ (e : t ≡ os_dly).
      head_differs os_dly t (tasks ds) (head_once os_dly (t ∷ tasks ds) (once_d os_dly)) (sym e) in
    let (s2, ran, chain, prios, links, delays) =
      put_prio-Inserted fuel s os_rdy t ts enough some_t fresh once c in
    let s' = leave_dly s2 time t in
    let keeps = leave-Keeps s2 time t (s2 t).p_dlnk refl other in
    (
      s',
      rw (no_list, ran) refl,
      leave_first s2 time t ds once_d (IsDelay-same s s2 os_dly 0 ((t, 0) ∷ ds) delays d),
      IsChain-Same s2 s' os_rdy (insert s t ts) (λ x l. (keeps x).0) chain,
      IsOrdered-same s s' (insert s t ts) (λ x. (keeps x).1 ∙ prios x)
          (insert-IsOrdered s s t ts (λ x. refl) ordered),
      (λ x. (keeps x).1 ∙ prios x),
      (λ x h.
          SameRest-trans s s2 s' x (put_prio-SameRest fuel s s2 os_rdy t x plain h ran)
            (leave-SameRest s2 time t (s2 t).p_dlnk refl other x h)),
      leave-state s2 time t (s2 t).p_dlnk refl other,
    )
