-- ===== src/Rtx/DelayList/Remove.antt =====
-- rt_rmv_dly keeps the list of delays and the time of every other task on it.
use remotus_hardware.Base.{
  ℕ, ◌+◌, ◌^◌, ◌≤◌, ◌<◌, ◌≡◌, refl, sym, ◌∙◌, List, [], ◌∷◌, if◌then◌else◌, arith, count,
  count_self, ==-same, not_eq, ◌==◌, ◌⊎◌, inl, inr, subst, ap,
}
use remotus_hardware.Rtx.Block.{Store, add16}
use remotus_hardware.Rtx.DelayList.{rmv_dly}
use remotus_hardware.Rtx.DelayList.Links.{tasks, IsDelay, SameDelay, IsDelay-frame}
use remotus_hardware.Rtx.PrioList.Laws.{head_differs, tail_differs, head_once}
use remotus_hardware.Rtx.PrioList.Order.{not_in, member_cases}

-- The list less the task `x`.
abbrev pub without : ℕ → List (ℕ × ℕ) → List (ℕ × ℕ)
without x [] = []
without x ((t, e) ∷ ds) = let rest = without x ds in if t == x then ds else (t, e) ∷ rest

module _ (s : Store) (x p next : ℕ) (prev : (s x).p_blnk ≡ p) (link : (s x).p_dlnk ≡ next)
    (above : 0 < p) where
  rmv-blnk-x : (rmv_dly s x x).p_blnk ≡ 0
  unfolding rmv_dly
  rmv-blnk-x = grind arith

  rmv-p : ¬ (p ≡ x) → (rmv_dly s x p).p_dlnk ≡ next
  unfolding rmv_dly
  rmv-p h = grind arith

  rmv-delta :
      ¬ (p ≡ x) → 0 < next → (rmv_dly s x p).delta_time ≡ add16 (s p).delta_time (s x).delta_time
  unfolding rmv_dly
  rmv-delta h k = grind arith

  rmv-delta-last : ¬ (p ≡ x) → next ≡ 0 → (rmv_dly s x p).delta_time ≡ 0
  unfolding rmv_dly
  rmv-delta-last h k = grind arith

  rmv-next : ¬ (next ≡ x) → 0 < next → (rmv_dly s x next).p_blnk ≡ p
  unfolding rmv_dly
  rmv-next h k = grind arith

module _ (s : Store) (x y : ℕ) (other : ¬ (y ≡ x)) where
  rmv-other : ¬ (y ≡ (s x).p_blnk) → SameDelay s (rmv_dly s x) y
  unfolding rmv_dly
  rmv-other h = (grind arith, grind arith)

  rmv-blnk : ¬ (y ≡ (s x).p_dlnk) → (rmv_dly s x y).p_blnk ≡ (s y).p_blnk
  unfolding rmv_dly
  rmv-blnk h = grind arith

-- rt_rmv_dly leaves the other members alone, and a task that is on no list.
pub rmv_dly-keeps :
    (s : Store) (x y : ℕ)
    → ((rmv_dly s x y).p_lnk ≡ (s y).p_lnk) × ((rmv_dly s x y).prio ≡ (s y).prio)
unfolding rmv_dly
rmv_dly-keeps s x y = (grind arith, grind arith)

pub rmv_dly-none : (s : Store) (x : ℕ) → (s x).p_blnk ≡ 0 → rmv_dly s x ≡ s
unfolding rmv_dly
rmv_dly-none s x h = rw h refl

is_first : (x y : ℕ) (ts : List ℕ) → x ≡ y → 0 < count x (y ∷ ts)
is_first x y ts e = subst (λ z. 0 < count z (y ∷ ts)) (sym e) (count_self y ts)

previous_in :
    (s : Store) (p base x : ℕ) (ds : List (ℕ × ℕ))
    → IsDelay s p base ds
    → 0 < count x (tasks ds)
    → 0 < count (s x).p_blnk (p ∷ tasks ds)
previous_in s p base x [] c k = absurd (omega arith)
previous_in s p base x ((t, e) ∷ ds) (link, some_t, blnk, time, small, c) k =
    elim (member_cases x t (tasks ds) k) [
      | inl same ↦ is_first (s x).p_blnk p (t ∷ tasks ds) (ap (λ z. (s z).p_blnk) same ∙ blnk)
      | inr later ↦ omega (arith, previous_in s t e x ds c later)
    ]

next_in :
    (s : Store) (p base x : ℕ) (ds : List (ℕ × ℕ))
    → IsDelay s p base ds
    → 0 < count x (tasks ds)
    → ((s x).p_dlnk ≡ 0) ⊎ (0 < count (s x).p_dlnk (tasks ds))
next_in s p base x [] c k = absurd (omega arith)
next_in s p base x ((t, e) ∷ []) (link, some_t, blnk, time, small, (last, none_left)) k =
    elim (member_cases x t [] k) [
      | inl same ↦ inl (rw same last)
      | inr later ↦ absurd (omega arith)
    ]
next_in s p base x ((t, e) ∷ (t2, e2) ∷ ds) (link, some_t, blnk, time, small, c) k =
    elim (member_cases x t (t2 ∷ tasks ds) k) [
      | inl same ↦
          inr
            (omega (arith, is_first (s x).p_dlnk t2 (tasks ds) (ap (λ z. (s z).p_dlnk) same ∙ c.0)))
      | inr later ↦ elim (next_in s t e x ((t2, e2) ∷ ds) c later) [
        | inl last ↦ inl last
        | inr inside ↦ inr (omega (arith, inside))
      ]
    ]

next_differs :
    (s : Store) (t base x : ℕ) (ds : List (ℕ × ℕ))
    → count t (tasks ds) ≡ 0
    → 0 < t
    → IsDelay s t base ds
    → 0 < count x (tasks ds)
    → ¬ (t ≡ (s x).p_dlnk)
next_differs s t base x ds no_t some_t c k same = elim (next_in s t base x ds c k) [
  | inl last ↦ omega (arith, same, last)
  | inr inside ↦ not_in (s x).p_dlnk t (tasks ds) no_t inside (sym same)
]

sum_time :
    (base now was more e e2 : ℕ)
    → now ≡ add16 was more
    → base + was ≡ e
    → e + more ≡ e2
    → e2 < 2 ^ 16
    → base + now ≡ e2
sum_time base now was more e e2 is time time2 small = omega arith

-- The task is the first.
rmv_first :
    (s : Store) (p base x e : ℕ) (ds : List (ℕ × ℕ))
    → 0 < p
    → ((y : ℕ) → count y (p ∷ x ∷ tasks ds) ≤ 1)
    → IsDelay s p base ((x, e) ∷ ds)
    → IsDelay (rmv_dly s x) p base ds
rmv_first s p base x e [] above once (link, some_x, blnk, time, small, (last, zero_left)) =
    let other = head_differs p x [] (head_once p (x ∷ []) (once p)) in
    (rmv-p s x p 0 blnk last above other, rmv-delta-last s x p 0 blnk last above other refl)
rmv_first s p base x e ((t, e2) ∷ ds) above once
      (link, some_x, blnk, time, small, (next, some_t, back, time2, small2, c)) =
    let no_p = head_once p (x ∷ t ∷ tasks ds) (once p) in
    let no_x = head_once x (t ∷ tasks ds) (omega (arith, once x)) in
    let no_t = head_once t (tasks ds) (omega (arith, once t)) in
    let other = head_differs p x (t ∷ tasks ds) no_p in
    let t_other = λ (same : t ≡ x). head_differs x t (tasks ds) no_x (sym same) in
    (
      rmv-p s x p t blnk next above other,
      some_t,
      rmv-next s x p t blnk next above t_other some_t,
      sum_time base (rmv_dly s x p).delta_time (s p).delta_time (s x).delta_time e e2
          (rmv-delta s x p t blnk next above other some_t) time time2 small2,
      small2,
      IsDelay-frame s (rmv_dly s x) t e2 ds
          (λ y k. rmv-other s x y (not_in y x (t ∷ tasks ds) no_x k) (λ same.
            not_in y p (t ∷ tasks ds) (tail_differs p x (t ∷ tasks ds) no_p) k (same ∙ blnk)))
          (λ y k.
            rmv-blnk s x y (not_in y x (tasks ds) (tail_differs x t (tasks ds) no_x) k)
              (λ same. not_in y t (tasks ds) no_t k (same ∙ next)))
          c,
    )

-- rt_rmv_dly of a task that is on a list of delays, whose tasks and head are there once: the task
-- is off the list, and every other task keeps its place and its time.
pub rmv_dly_lem :
    (s : Store) (p base x : ℕ) (ds : List (ℕ × ℕ))
    → 0 < p
    → ((y : ℕ) → count y (p ∷ tasks ds) ≤ 1)
    → 0 < count x (tasks ds)
    → IsDelay s p base ds
    → IsDelay (rmv_dly s x) p base (without x ds)
rmv_dly_lem s p base x [] above once has c = absurd (omega arith)
rmv_dly_lem s p base x ((t, e) ∷ ds) above once has (link, some_t, blnk, time, small, c) =
    elim (member_cases x t (tasks ds) has) [
      | inl same ↦
          rw (same, ==-same t)
            (rmv_first s p base t e ds above once (link, some_t, blnk, time, small, c))
      | inr later ↦
          let no_p = head_once p (t ∷ tasks ds) (once p) in
          let no_t = head_once t (tasks ds) (omega (arith, once t)) in
          let apart = λ (same : t ≡ x). not_in x t (tasks ds) no_t later (sym same) in
          let p_apart = λ (same : p ≡ x). not_in x p (t ∷ tasks ds) no_p has (sym same) in
          let (dlnk, delta) = rmv-other s x p p_apart (λ same.
            not_in (s x).p_blnk p (t ∷ tasks ds) no_p (previous_in s t e x ds c later)
              (sym same)) in
          rw (not_eq t x apart) (
            dlnk ∙ link,
            some_t,
            rmv-blnk s x t apart (next_differs s t e x ds no_t some_t c later) ∙ blnk,
            rw delta time,
            small,
            rmv_dly_lem s t e x ds some_t (λ y. omega (arith, once y)) later c,
          )
    ]
