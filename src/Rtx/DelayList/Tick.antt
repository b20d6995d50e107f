-- ===== src/Rtx/DelayList/Tick.antt =====
-- rt_dec_dly: a tick of the clock for the tasks that only wait for time.
use remotus_hardware.Base.{
  ℕ, ◌+◌, ◌-◌, ◌≤◌, ◌<◌, ◌≡◌, refl, ◌∙◌, List, [], ◌∷◌, false, length, arith, count, not_eq,
}
use remotus_hardware.Rtx.Block.{Store, os_rdy, os_dly, set_delta, sub16}
use remotus_hardware.Rtx.DelayList.{dec_dly}
use remotus_hardware.Rtx.DelayList.Links.{tasks, IsDelay, IsDelay-frame, Keeps}
use remotus_hardware.Rtx.DelayList.Put.{sub16_lem}
use remotus_hardware.Rtx.PrioList.{is_sem_mbx}
use remotus_hardware.Rtx.PrioList.Laws.{IsChain, IsChain-Same, head_once}
use remotus_hardware.Rtx.PrioList.Order.{IsOrdered, IsOrdered-same, not_in}
use remotus_hardware.Rtx.PrioList.Frame.{SameRest, SameRest-trans}
use remotus_hardware.Rtx.DelayList.Expire.{Ticked, expire_lem}

-- Every time is a tick sooner.
abbrev pub sooner : List (ℕ × ℕ) → List (ℕ × ℕ)
sooner [] = []
sooner ((t, e) ∷ ds) = (t, e - 1) ∷ sooner ds

IsDelay-sooner :
    (s : Store) (p base : ℕ) (ds : List (ℕ × ℕ))
    → 0 < base
    → IsDelay s p base ds
    → IsDelay s p (base - 1) (sooner ds)
IsDelay-sooner s p base [] later d = d
IsDelay-sooner s p base ((t, e) ∷ ds) later (link, some_t, blnk, time, small, d) =
    (link, some_t, blnk, omega arith, omega arith, IsDelay-sooner s t e ds (omega arith) d)

tasks-sooner : (ds : List (ℕ × ℕ)) → tasks (sooner ds) ≡ tasks ds
tasks-sooner [] = refl
tasks-sooner ((t, e) ∷ ds) = rw (tasks-sooner ds) refl

length-sooner : (ds : List (ℕ × ℕ)) → length (sooner ds) ≡ length ds
length-sooner [] = refl
length-sooner (d ∷ ds) = rw (length-sooner ds) refl

-- No time has come yet.
abbrev pub AllLater : List (ℕ × ℕ) → Type 0
AllLater [] = Unit {0}
AllLater ((t, e) ∷ ds) = 0 < e

module _ (s : Store) (v : ℕ) where
  head-delta : (set_delta s os_dly v os_dly).delta_time ≡ v
  head-delta = grind arith

  head-rest : (x : ℕ) → SameRest s (set_delta s os_dly v) x
  head-rest x = (grind arith, grind arith, grind arith)

  head-Keeps : Keeps s (set_delta s os_dly v)
  head-Keeps x = (grind arith, grind arith)

  head-links :
      (x : ℕ)
      → ((set_delta s os_dly v x).p_dlnk ≡ (s x).p_dlnk)
        × ((set_delta s os_dly v x).p_blnk ≡ (s x).p_blnk)
  head-links x = (grind arith, grind arith)

  head-other : (x : ℕ) → ¬ (x ≡ os_dly) → (set_delta s os_dly v x).delta_time ≡ (s x).delta_time
  head-other x h = grind arith

-- The list after the head has the time less one tick.
head_sooner :
    (s : Store) (t e : ℕ) (ds : List (ℕ × ℕ))
    → 0 < e
    → count os_dly (t ∷ tasks ds) ≡ 0
    → IsDelay s os_dly 0 ((t, e) ∷ ds)
    → IsDelay (set_delta s os_dly (sub16 (s os_dly).delta_time 1)) os_dly 0 (sooner ((t, e) ∷ ds))
head_sooner s t e ds later none_of (link, some_t, blnk, time, small, d) =
    let v = sub16 (s os_dly).delta_time 1 in
    let s1 = set_delta s os_dly v in
    (
      (head-links s v os_dly).0 ∙ link,
      some_t,
      (head-links s v t).1 ∙ blnk,
      omega (arith, head-delta s v, sub16_lem (s os_dly).delta_time 1 (omega arith) (omega arith)),
      omega arith,
      IsDelay-sooner s1 t e ds later (
          IsDelay-frame s s1 t e ds
            (λ x k.
              ((head-links s v x).0, head-other s v x (not_in x os_dly (t ∷ tasks ds) none_of k)))
            (λ x k. (head-links s v x).1) d),
    )

-- rt_dec_dly with more rounds than tasks are delayed and ready together, when each task is in one
-- place and the delayed tasks are on no list of an object: every time is a tick sooner; the tasks
-- whose time is then 0 become ready and join the ready list in order, whose tasks all stay; the
-- others are on the list of delays with their times; no priority changes, and no other task's
-- state.
pub dec_dly_lem :
    (fuel : ℕ) (s : Store) (time : ℕ) (ts : List ℕ) (ds : List (ℕ × ℕ))
    → length ts + length ds < fuel
    → is_sem_mbx (s os_rdy).cb_type ≡ false
    → ((x : ℕ) → 0 < count x (tasks ds) → (s x).p_rlnk ≡ 0)
    → ((x : ℕ) → count x (os_rdy ∷ os_dly ∷ tasks ds) + count x ts ≤ 1)
    → IsChain s os_rdy ts
    → IsOrdered s ts
    → AllLater ds
    → IsDelay s os_dly 0 ds
    → Ticked (dec_dly fuel s time) s ts (sooner ds)
unfolding dec_dly
dec_dly_lem fuel s time ts [] enough plain no_list once c ordered later (link, zero_left) =
    rw link (
      s,
      refl,
      (link, zero_left),
      (ts, c, ordered, (λ x. omega arith)),
      (λ x. refl),
      (λ x k. absurd (omega arith)),
      (λ x k. (refl, refl, refl)),
    )
dec_dly_lem fuel s time ts ((t, e) ∷ ds) enough plain no_list once c ordered later d =
    let s1 = set_delta s os_dly (sub16 (s os_dly).delta_time 1) in
    let v = sub16 (s os_dly).delta_time 1 in
    let (s', ran, listed, (ts', c', ordered', sum), prios, states, rest) =
      expire_lem fuel fuel s1 time ts (sooner ((t, e) ∷ ds)) (rw (length-sooner ds) (omega arith))
        (rw (length-sooner ds) (omega arith)) (rw (head-rest s v os_rdy).0 plain)
        (λ x k. (head-rest s v x).2 ∙ no_list x (rw (tasks-sooner ds) at k))
        (λ x. rw (tasks-sooner ds) (once x))
        (IsChain-Same s s1 os_rdy ts (λ x k. (head-Keeps s v x).0) c)
        (IsOrdered-same s s1 ts (λ x. (head-Keeps s v x).1) ordered)
        (head_sooner s t e ds later (head_once os_dly (t ∷ tasks ds) (omega (arith, once os_dly)))
          d) in
    (
      s',
      rw (d.0, not_eq t 0 (omega (arith, d.1))) ran,
      listed,
      (ts', c', ordered', sum),
      (λ x. prios x ∙ (head-Keeps s v x).1),
      states,
      (λ x k. SameRest-trans s s1 s' x (head-rest s v x) (rest x k)),
    )
