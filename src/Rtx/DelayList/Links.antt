-- ===== src/Rtx/DelayList/Links.antt =====
-- The list of delays against the times at which its tasks expire, and the links after an insertion.
use remotus_hardware.Base.{
  ℕ, ◌+◌, ◌^◌, ◌<◌, ◌≡◌, ◌∙◌, List, [], ◌∷◌, if◌then◌else◌, arith, count, count_self, ltb,
}
use remotus_hardware.Rtx.Block.{Store, sub16}
use remotus_hardware.Rtx.DelayList.{dly_last, dly_insert}
use remotus_hardware.Rtx.PrioList.Laws.{SameDelays}

-- The tasks of a list of pairs of a task and a time.
abbrev pub tasks : List (ℕ × ℕ) → List ℕ
tasks [] = []
tasks ((t, e) ∷ ds) = t ∷ tasks ds

-- The tasks hang on the entry `p`, whose own time is `base`, in the order of their times, which fit in
-- 16 bits; a delta_time is the difference to the next time, and 0 in the last entry.
abbrev pub IsDelay : Store → ℕ → ℕ → List (ℕ × ℕ) → Type 0
IsDelay s p base [] = ((s p).p_dlnk ≡ 0) × ((s p).delta_time ≡ 0)
IsDelay s p base ((t, e) ∷ ds) =
    ((s p).p_dlnk ≡ t)
    × (0 < t)
    × ((s t).p_blnk ≡ p)
    × (base + (s p).delta_time ≡ e)
    × (e < 2 ^ 16)
    × IsDelay s t e ds

-- Before the first task whose time is not below.
abbrev pub insert_time : ℕ → ℕ → List (ℕ × ℕ) → List (ℕ × ℕ)
insert_time p_task delay [] = (p_task, delay) ∷ []
insert_time p_task delay ((t, e) ∷ ds) =
    let rest = insert_time p_task delay ds in
    if ltb e delay then (t, e) ∷ rest else (p_task, delay) ∷ (t, e) ∷ ds

-- The links and the difference of an entry, and all links but the one back to it.
abbrev pub SameDelay : Store → Store → ℕ → Type 0
SameDelay s s' x = ((s' x).p_dlnk ≡ (s x).p_dlnk) × ((s' x).delta_time ≡ (s x).delta_time)

-- Priorities and the links of the other lists stay.
abbrev pub Keeps : Store → Store → Type 0
Keeps s s' = (x : ℕ) → ((s' x).p_lnk ≡ (s x).p_lnk) × ((s' x).prio ≡ (s x).prio)

-- A call that touches only the list of delays: the links of the other lists, priorities, states and
-- types stay.
abbrev pub KeepsOthers : Store → Store → Type 0
KeepsOthers s s' =
    (x : ℕ)
    → ((s' x).p_lnk ≡ (s x).p_lnk)
      × ((s' x).prio ≡ (s x).prio)
      × ((s' x).p_rlnk ≡ (s x).p_rlnk)
      × ((s' x).state ≡ (s x).state)
      × ((s' x).cb_type ≡ (s x).cb_type)

pub IsDelay-frame :
    (s s' : Store) (p base : ℕ) (ds : List (ℕ × ℕ))
    → ((x : ℕ) → 0 < count x (p ∷ tasks ds) → SameDelay s s' x)
    → ((x : ℕ) → 0 < count x (tasks ds) → (s' x).p_blnk ≡ (s x).p_blnk)
    → IsDelay s p base ds
    → IsDelay s' p base ds
IsDelay-frame s s' p base [] same back (link, last) =
    let (same_link, same_delta) = same p (count_self p []) in (same_link ∙ link, same_delta ∙ last)
IsDelay-frame s s' p base ((t, e) ∷ ds) same back (link, above, blnk, time, small, c) =
    let (same_link, same_delta) = same p (count_self p (t ∷ tasks ds)) in
    (
      same_link ∙ link,
      above,
      back t (count_self t (tasks ds)) ∙ blnk,
      rw same_delta time,
      small,
      IsDelay-frame s s' t e ds (λ x k. same x (omega arith)) (λ x k. back x (omega arith)) c,
    )

pub IsDelay-same :
    (s s' : Store) (p base : ℕ) (ds : List (ℕ × ℕ))
    → SameDelays s s'
    → IsDelay s p base ds
    → IsDelay s' p base ds
IsDelay-same s s' p base ds same d =
    IsDelay-frame s s' p base ds (λ x k. let (dlnk, blnk, delta) = same x in (dlnk, delta))
      (λ x k. let (dlnk, blnk, delta) = same x in blnk) d

module _ (s : Store) (p_task delay p delta : ℕ) (other : ¬ (p ≡ p_task)) where
  pub last-p :
      ((dly_last s p_task delay p delta p).p_dlnk ≡ p_task)
      × ((dly_last s p_task delay p delta p).delta_time ≡ sub16 delay delta)
  unfolding dly_last
  last-p = (grind arith, grind arith)

  pub last-task :
      ((dly_last s p_task delay p delta p_task).p_dlnk ≡ 0)
      × ((dly_last s p_task delay p delta p_task).delta_time ≡ 0)
      × ((dly_last s p_task delay p delta p_task).p_blnk ≡ p)
  unfolding dly_last
  last-task = (grind arith, grind arith, grind arith)

  pub last-other :
      (x : ℕ) → ¬ (x ≡ p_task) → ¬ (x ≡ p) → SameDelay s (dly_last s p_task delay p delta) x
  unfolding dly_last
  last-other x h k = (grind arith, grind arith)

  pub last-blnk :
      (x : ℕ) → ¬ (x ≡ p_task) → (dly_last s p_task delay p delta x).p_blnk ≡ (s x).p_blnk
  unfolding dly_last
  last-blnk x h = grind arith

  pub last-KeepsOthers : KeepsOthers s (dly_last s p_task delay p delta)
  unfolding dly_last
  last-KeepsOthers x = (grind arith, grind arith, grind arith, grind arith, grind arith)

  pub insert-KeepsOthers : KeepsOthers s (dly_insert s p_task delay p delta)
  unfolding dly_insert
  insert-KeepsOthers x = (grind arith, grind arith, grind arith, grind arith, grind arith)

  pub insert-p :
      ((dly_insert s p_task delay p delta p).p_dlnk ≡ p_task)
      × ((dly_insert s p_task delay p delta p).delta_time
          ≡ sub16 (s p).delta_time (sub16 delta delay))
  unfolding dly_insert
  insert-p = (grind arith, grind arith)

  pub insert-task :
      ((dly_insert s p_task delay p delta p_task).p_dlnk ≡ (s p).p_dlnk)
      × ((dly_insert s p_task delay p delta p_task).delta_time ≡ sub16 delta delay)
      × (¬ ((s p).p_dlnk ≡ p_task) → (dly_insert s p_task delay p delta p_task).p_blnk ≡ p)
  unfolding dly_insert
  insert-task = (grind arith, grind arith, (λ h. grind arith))

  pub insert-next :
      (next : ℕ)
      → (s p).p_dlnk ≡ next
      → 0 < next
      → (dly_insert s p_task delay p delta next).p_blnk ≡ p_task
  unfolding dly_insert
  insert-next next e h = grind arith

  pub insert-other :
      (x : ℕ) → ¬ (x ≡ p_task) → ¬ (x ≡ p) → SameDelay s (dly_insert s p_task delay p delta) x
  unfolding dly_insert
  insert-other x h k = (grind arith, grind arith)

  pub insert-blnk :
      (next x : ℕ)
      → (s p).p_dlnk ≡ next
      → ¬ (x ≡ p_task)
      → ¬ (x ≡ next)
      → (dly_insert s p_task delay p delta x).p_blnk ≡ (s x).p_blnk
  unfolding dly_insert
  insert-blnk next x e h k = grind arith
