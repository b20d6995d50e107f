-- ===== src/Rtx/DelayList/Put.antt =====
-- rt_put_dly keeps the list of delays and the time of every task on it.
use remotus_hardware.Base.{
  ℕ, zero, suc, ◌+◌, ◌-◌, ◌%◌, ◌^◌, ◌≤◌, ◌<◌, ◌≡◌, refl, sym, ◌∙◌, Option, some, List, [], ◌∷◌,
  length, arith, count, not_eq, dec_lt, lt→ltb, le→not_ltb,
}
use remotus_hardware.Rtx.Block.{Store, os_dly, sub16}
use remotus_hardware.Rtx.DelayList.{dly_last, dly_insert, put_dly_from, put_dly}
use remotus_hardware.Rtx.PrioList.Laws.{head_differs, tail_differs, head_once}
use remotus_hardware.Rtx.PrioList.Order.{not_in}
use remotus_hardware.Rtx.DelayList.Links.{
  tasks, IsDelay, insert_time, SameDelay, IsDelay-frame, last-p, last-task, last-other, last-blnk,
  insert-p, insert-task, insert-next, insert-other, insert-blnk, KeepsOthers, last-KeepsOthers,
  insert-KeepsOthers,
}

pub sub16_lem : (a b : ℕ) → b ≤ a → a < 2 ^ 16 → sub16 a b ≡ a - b
sub16_lem a b h k = omega arith

-- Where a call leaves the store: the task is in its place on the list on `p`, and no entry outside
-- it has changed, and nothing but the members of the list of delays.
abbrev pub Delayed : Option Store → Store → ℕ → ℕ → ℕ → ℕ → List (ℕ × ℕ) → Type 0
Delayed run s p_task delay p base ds =
    (s' : Store) × (run ≡ some s')
    × IsDelay s' p base (insert_time p_task delay ds)
    × ((x : ℕ) → count x (p ∷ tasks ds) ≡ 0 → ¬ (x ≡ p_task) → SameDelay s s' x)
    × ((x : ℕ) → count x (tasks ds) ≡ 0 → ¬ (x ≡ p_task) → (s' x).p_blnk ≡ (s x).p_blnk)
    × KeepsOthers s s'

module _ (s : Store) (p_task delay p base : ℕ) (above : 0 < p_task) (small : delay < 2 ^ 16)
    (later : base < delay) where
  delay_last :
      (run : Option Store)
      → run ≡ some (dly_last s p_task delay p base)
      → ¬ (p ≡ p_task)
      → Delayed run s p_task delay p base []
  delay_last run ran other =
      let s' = dly_last s p_task delay p base in
      let (p_dlnk, p_delta) = last-p s p_task delay p base other in
      let (dlnk, delta, blnk) = last-task s p_task delay p base other in
      (
        s',
        ran,
        (
          p_dlnk,
          above,
          blnk,
          omega (arith, p_delta, sub16_lem delay base (omega arith) small),
          small,
          (dlnk, delta),
        ),
        (λ x h k. last-other s p_task delay p base other x k (head_differs x p [] h)),
        (λ x h k. last-blnk s p_task delay p base other x k),
        last-KeepsOthers s p_task delay p base other,
      )

  before_time :
      (now was e : ℕ)
      → now ≡ sub16 was (sub16 e delay)
      → sub16 e delay ≡ e - delay
      → delay ≤ e
      → base + was ≡ e
      → e < 2 ^ 16
      → base + now ≡ delay
  before_time now was e is rest before time small_e =
      omega (arith, rw rest at is, sub16_lem was (e - delay) (omega arith) (omega arith))

  delay_before :
      (run : Option Store) (t e : ℕ) (ds : List (ℕ × ℕ))
      → run ≡ some (dly_insert s p_task delay p e)
      → delay ≤ e
      → count p_task (p ∷ t ∷ tasks ds) ≡ 0
      → ((x : ℕ) → count x (p ∷ t ∷ tasks ds) ≤ 1)
      → IsDelay s p base ((t, e) ∷ ds)
      → insert_time p_task delay ((t, e) ∷ ds) ≡ (p_task, delay) ∷ (t, e) ∷ ds
      → Delayed run s p_task delay p base ((t, e) ∷ ds)
  delay_before run t e ds ran before fresh once (link, some_t, blnk_t, time, small_e, c) placed =
      let s' = dly_insert s p_task delay p e in
      let other = λ (same : p ≡ p_task). head_differs p_task p (t ∷ tasks ds) fresh (sym same) in
      let no_task = tail_differs p_task p (t ∷ tasks ds) fresh in
      let no_p = head_once p (t ∷ tasks ds) (once p) in
      let no_t = head_once t (tasks ds) (omega (arith, once t)) in
      let (p_dlnk, p_delta) = insert-p s p_task delay p e other in
      let (dlnk, delta, blnk) = insert-task s p_task delay p e other in
      let rest = sub16_lem e delay before small_e in
      let t_differs = head_differs p_task t (tasks ds) no_task in
      (
        s',
        ran,
        rw placed (
          p_dlnk,
          above,
          blnk (λ same. t_differs (sym same ∙ link)),
          before_time (s' p).delta_time (s p).delta_time e p_delta rest before time small_e,
          small,
          (
            dlnk ∙ link,
            some_t,
            insert-next s p_task delay p e other t link some_t,
            omega (arith, delta, rest),
            small_e,
            IsDelay-frame s s' t e ds
                (λ x k.
                  insert-other s p_task delay p e other x (not_in x p_task (t ∷ tasks ds) no_task k)
                    (not_in x p (t ∷ tasks ds) no_p k))
                (λ x k.
                  insert-blnk s p_task delay p e other t x link
                    (not_in x p_task (tasks ds) (tail_differs p_task t (tasks ds) no_task) k)
                    (not_in x t (tasks ds) no_t k))
                c,
          ),
        ),
        (λ x h k. insert-other s p_task delay p e other x k (head_differs x p (t ∷ tasks ds) h)),
        (λ x h k. insert-blnk s p_task delay p e other t x link k (head_differs x t (tasks ds) h)),
        insert-KeepsOthers s p_task delay p e other,
      )

-- The sum of the differences does not wrap.
pub next_small :
    (s : Store) (p base : ℕ) (ds : List (ℕ × ℕ))
    → base < 2 ^ 16
    → IsDelay s p base ds
    → (base + (s p).delta_time) % 2 ^ 32 ≡ base + (s p).delta_time
next_small s p base [] small (link, last) = omega (arith, last)
next_small s p base ((t, e) ∷ ds) small (link, above, blnk, time, small_e, c) = omega arith

put_dly_from-lem :
    (fuel : ℕ) (ds : List (ℕ × ℕ)) (s : Store) (p_task delay p base delta : ℕ)
    → length ds < fuel
    → 0 < p_task
    → delay < 2 ^ 16
    → base < delay
    → delta ≡ base + (s p).delta_time
    → count p_task (p ∷ tasks ds) ≡ 0
    → ((x : ℕ) → count x (p ∷ tasks ds) ≤ 1)
    → IsDelay s p base ds
    → Delayed (put_dly_from fuel s p_task delay p delta) s p_task delay p base ds
unfolding put_dly_from
put_dly_from-lem zero ds s p_task delay p base delta enough above small later sum fresh once c =
    absurd (omega arith)
put_dly_from-lem (suc fuel) [] s p_task delay p base delta enough above small later sum fresh once
      (link, last) =
    let ends : delta ≡ base = omega (arith, last) in
    delay_last s p_task delay p base above small later _
      (rw (ends, lt→ltb base delay later, link) refl)
      (λ same. head_differs p_task p [] fresh (sym same))
put_dly_from-lem (suc fuel) ((t, e) ∷ ds) s p_task delay p base delta enough above small later sum
      fresh once (link, some_t, blnk_t, time, small_e, c) =
    let here : delta ≡ e = sum ∙ time in
    elim (dec_lt e delay) [
      | no before ↦
          let first = le→not_ltb e delay (omega arith) in
          delay_before s p_task delay p base above small later _ t e ds (rw (here, first) refl)
            (omega arith) fresh once (link, some_t, blnk_t, time, small_e, c) (rw first refl)
      | yes after ↦
          let later_on = lt→ltb e delay after in
          let (s', ran, listed, same, back, keeps) =
            put_dly_from-lem fuel ds s p_task delay t e (e + (s t).delta_time) (omega arith) above
              small after refl (tail_differs p_task p (t ∷ tasks ds) fresh)
              (λ x. omega (arith, once x)) c in
          let (dlnk, delta_time) =
            same p (head_once p (t ∷ tasks ds) (once p))
              (λ e1. head_differs p_task p (t ∷ tasks ds) fresh (sym e1)) in
          (
            s',
            rw (here, later_on, link, not_eq t 0 (omega arith), next_small s t e ds small_e c) ran,
            rw later_on (
              dlnk ∙ link,
              some_t,
              back t (head_once t (tasks ds) (omega (arith, once t))) (λ e1.
                    head_differs p_task t (tasks ds) (tail_differs p_task p (t ∷ tasks ds) fresh)
                      (sym e1))
                  ∙ blnk_t,
              rw delta_time time,
              small_e,
              listed,
            ),
            (λ x h k. same x (tail_differs x p (t ∷ tasks ds) h) k),
            (λ x h k. back x (tail_differs x t (tasks ds) h) k),
            keeps,
          )
    ]

-- rt_put_dly of a task that is not on the list, whose tasks are there once, for a delay of 1 to
-- 0xffff ticks, with more rounds than the list has tasks: the task is before the first whose time
-- is not below its own, every task keeps its time, no entry outside the list changes its links or
-- time, and no priority, state, type or link of another list (p_lnk, p_rlnk) changes.
pub put_dly_lem :
    (fuel : ℕ) (s : Store) (p_task delay : ℕ) (ds : List (ℕ × ℕ))
    → length ds < fuel
    → 0 < p_task
    → 0 < delay
    → delay < 2 ^ 16
    → count p_task (os_dly ∷ tasks ds) ≡ 0
    → ((x : ℕ) → count x (os_dly ∷ tasks ds) ≤ 1)
    → IsDelay s os_dly 0 ds
    → Delayed (put_dly fuel s p_task delay) s p_task delay os_dly 0 ds
unfolding put_dly
put_dly_lem fuel s p_task delay [] enough above later small fresh once (link, last) =
    delay_last s p_task delay os_dly 0 above small later _ (rw link refl)
      (λ same. head_differs p_task os_dly [] fresh (sym same))
put_dly_lem fuel s p_task delay ((t, e) ∷ ds) enough above later small fresh once
      (link, some_t, blnk, time, small_e, c) =
    rw (link, not_eq t 0 (omega arith))
      (put_dly_from-lem fuel ((t, e) ∷ ds) s p_task delay os_dly 0 (s os_dly).delta_time enough
        above small later (omega arith) fresh once (link, some_t, blnk, time, small_e, c))
