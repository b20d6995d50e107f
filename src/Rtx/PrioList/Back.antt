-- ===== src/Rtx/PrioList/Back.antt =====
-- The links back (p_rlnk) of a list on which rt_put_prio puts a task.
use remotus_hardware.Base.{
  ℕ, zero, suc, ◌≤◌, ◌<◌, ◌≡◌, refl, sym, ◌∙◌, Option, some, List, [], ◌∷◌, if◌then◌else◌, Bool,
  true, false, not, ◌&&◌, ◌==◌, leb, length, arith, ==-same, not_eq, count, le→leb, lt→not_leb,
  dec_lt, Bool-cases, inl, inr,
}
use remotus_hardware.Rtx.Block.{Store}
use remotus_hardware.Rtx.PrioList.{is_sem_mbx, insert_at, put_from, put_prio}
use remotus_hardware.Rtx.PrioList.Laws.{
  IsChain, insert, Inserted, head_differs, tail_differs, head_once, put_prio-Inserted,
}
use remotus_hardware.Rtx.PrioList.Order.{not_in}
use remotus_hardware.Rtx.PrioList.Frame.{outcome, put_prio-SameRest}

-- Every task of a list on `p` is linked back to the entry before it.
abbrev pub IsBack : Store → ℕ → List ℕ → Type 0
IsBack s p [] = Unit {0}
IsBack s p (t ∷ ts) = ((s t).p_rlnk ≡ p) × IsBack s t ts

pub IsBack-same :
    (s s' : Store) (p : ℕ) (ts : List ℕ)
    → ((x : ℕ) → 0 < count x ts → (s' x).p_rlnk ≡ (s x).p_rlnk)
    → IsBack s p ts
    → IsBack s' p ts
IsBack-same s s' p [] same b = tt
IsBack-same s s' p (t ∷ ts) same (back, b) = (
  same t (rw (==-same t) (omega arith)) ∙ back,
  IsBack-same s s' t ts (λ x k. same x (omega arith)) b,
)

-- Where a call leaves the links back: on the list of a semaphore, a mailbox or a mutex (`sem_mbx`)
-- every task has its own, and none outside it changes; elsewhere the task has none and no other
-- changes.
abbrev pub Linked : Option Store → Bool → Store → ℕ → ℕ → List ℕ → Type 0
Linked run sem_mbx s p_task p ts =
    (s' : Store) × (run ≡ some s')
    × (if sem_mbx then IsBack s' p (insert s p_task ts) else ((s' p_task).p_rlnk ≡ 0))
    × ((x : ℕ)
        → ¬ (x ≡ p_task)
        → (if sem_mbx then count x ts else 0) ≡ 0
        → (s' x).p_rlnk ≡ (s x).p_rlnk)

module _ (s : Store) (p_task p p2 : ℕ) where
  back-task : ¬ (p2 ≡ p_task) → (insert_at true p_task s p p2 p_task).p_rlnk ≡ p
  unfolding insert_at
  back-task h = grind arith

  back-next : 0 < p2 → ¬ (p2 ≡ p_task) → (insert_at true p_task s p p2 p2).p_rlnk ≡ p_task
  unfolding insert_at
  back-next k h = grind arith

  back-other :
      (x : ℕ) → ¬ (x ≡ p_task) → ¬ (x ≡ p2) → (insert_at true p_task s p p2 x).p_rlnk ≡ (s x).p_rlnk
  unfolding insert_at
  back-other x h k = grind arith

  -- with no task behind
  back-end :
      (x : ℕ) → p2 ≡ 0 → ¬ (x ≡ p_task) → (insert_at true p_task s p p2 x).p_rlnk ≡ (s x).p_rlnk
  unfolding insert_at
  back-end x e h = grind arith

  plain-task : (insert_at false p_task s p p2 p_task).p_rlnk ≡ 0
  unfolding insert_at
  plain-task = grind arith

  plain-other : (x : ℕ) → ¬ (x ≡ p_task) → (insert_at false p_task s p p2 x).p_rlnk ≡ (s x).p_rlnk
  unfolding insert_at
  plain-other x h = grind arith

put_from-IsBack :
    (ts : List ℕ) (fuel : ℕ) (s : Store) (p_task p : ℕ)
    → length ts < fuel
    → 0 < p_task
    → count p_task (p ∷ ts) ≡ 0
    → ((x : ℕ) → count x (p ∷ ts) ≤ 1)
    → IsChain s p ts
    → IsBack s p ts
    → Linked (put_from fuel true (s p_task).prio p_task s p (s p).p_lnk) true s p_task p ts
unfolding put_from
put_from-IsBack ts zero s p_task p enough above fresh once c b = absurd (omega arith)
put_from-IsBack [] (suc fuel) s p_task p enough above fresh once c b = (
  insert_at true p_task s p 0,
  rw c refl,
  (back-task s p_task p 0 (λ e. absurd (omega arith)), tt),
  λ x other none_of. back-end s p_task p 0 x refl other,
)
put_from-IsBack (t ∷ ts) (suc fuel) s p_task p enough above fresh once (link, pos_t, c) (back, b) =
    let no_task = tail_differs p_task p (t ∷ ts) fresh in
    let other_t = λ (e : t ≡ p_task). head_differs p_task t ts no_task (sym e) in
    let no_t = head_once t ts (omega (arith, once t)) in
    elim (dec_lt (s t).prio (s p_task).prio) [
      | yes lower ↦
          let below = lt→not_leb (s p_task).prio (s t).prio lower in
          rw below (
            insert_at true p_task s p t,
            rw (link, not_eq t 0 (omega arith), below) refl,
            (
              back-task s p_task p t other_t,
              (
                back-next s p_task p t pos_t other_t,
                IsBack-same s (insert_at true p_task s p t) t ts
                    (λ x k.
                      back-other s p_task p t x
                        (not_in x p_task ts (tail_differs p_task t ts no_task) k)
                        (not_in x t ts no_t k))
                    b,
              ),
            ),
            λ x other none_of. back-other s p_task p t x other (head_differs x t ts none_of),
          )
      | no higher ↦
          let behind = le→leb (s p_task).prio (s t).prio (omega arith) in
          let (s1, run, linked, same) =
            put_from-IsBack ts fuel s p_task t (omega arith) above no_task
              (λ x. omega (arith, once x)) c b in
          rw behind (
            s1,
            rw (link, not_eq t 0 (omega arith), behind) run,
            (same t other_t no_t ∙ back, linked),
            λ x other none_of. same x other (tail_differs x t ts none_of),
          )
    ]

put_from-plain :
    (fuel : ℕ) (s s' : Store) (prio p_task p p2 : ℕ)
    → put_from fuel false prio p_task s p p2 ≡ some s'
    → (s' p_task).p_rlnk ≡ 0
unfolding put_from
put_from-plain zero s s' prio p_task p p2 e = absurd (cc e)
put_from-plain (suc fuel) s s' prio p_task p p2 e =
    elim (outcome (not (p2 == 0) && leb prio (s p2).prio) _ _ s' e) [
      | inl rest ↦ put_from-plain fuel s s' prio p_task p2 (s p2).p_lnk rest
      | inr here ↦ rw (sym here) (plain-task s p_task p p2)
    ]

-- rt_put_prio, with more rounds than the list has tasks, on a list without repeated entries and a
-- task that is not in it: the task stands behind those of its priority and above and before those
-- below, linked to the next; no priority changes, no link p_lnk outside the list, and nothing of the
-- list of delays. On the list of a semaphore, a mailbox or a mutex whose tasks are linked back
-- (p_rlnk), all are so afterwards, and no link back outside the list changes; on another list the task
-- has no link back, and no other task's changes.
pub put_prio_lem :
    (fuel : ℕ) (s : Store) (p_cb p_task : ℕ) (ts : List ℕ)
    → length ts < fuel
    → 0 < p_task
    → count p_task (p_cb ∷ ts) ≡ 0
    → ((x : ℕ) → count x (p_cb ∷ ts) ≤ 1)
    → IsChain s p_cb ts
    → (is_sem_mbx (s p_cb).cb_type ≡ true → IsBack s p_cb ts)
    → Inserted (put_prio fuel s p_cb p_task) s p_task p_cb ts
      × Linked (put_prio fuel s p_cb p_task) (is_sem_mbx (s p_cb).cb_type) s p_task p_cb ts
unfolding put_prio
put_prio_lem fuel s p_cb p_task ts enough above fresh once c b =
    let inserted = put_prio-Inserted fuel s p_cb p_task ts enough above fresh once c in
    let s' = inserted.0 in
    let ran = inserted.1 in
    (
      inserted,
      elim (Bool-cases (is_sem_mbx (s p_cb).cb_type)) [
        | inl sem_mbx ↦
            rw sem_mbx (put_from-IsBack ts fuel s p_task p_cb enough above fresh once c (b sem_mbx))
        | inr plain ↦ rw plain (
          s',
          rw plain at ran,
          put_from-plain fuel s s' (s p_task).prio p_task p_cb (s p_cb).p_lnk (rw plain at ran),
          λ x other none_of. (put_prio-SameRest fuel s s' p_cb p_task x plain other ran).2,
        )
      ],
    )
