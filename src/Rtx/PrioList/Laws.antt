-- ===== src/Rtx/PrioList/Laws.antt =====
-- What the calls do to the list of tasks that a head links.
use remotus_hardware.Base.{
  ℕ, zero, suc, ◌≤◌, ◌<◌, ◌≡◌, refl, subst, sym, ◌∙◌, Option, some, List, [], ◌∷◌, if◌then◌else◌,
  Bool, leb, length, arith, ==-same, not_eq, count, le→leb, lt→not_leb, dec_lt,
}
use remotus_hardware.Rtx.PrioList.{is_sem_mbx, insert_at, put_from, put_prio}
use remotus_hardware.Rtx.Block.{Store}

-- The tasks `ts` hang on the entry `p`, the last one linked to NULL.
abbrev pub IsChain : Store → ℕ → List ℕ → Type 0
IsChain s p [] = (s p).p_lnk ≡ 0
IsChain s p (t ∷ ts) = ((s p).p_lnk ≡ t) × (0 < t) × IsChain s t ts

-- Behind the tasks of its own priority and above, and before those below.
abbrev pub insert : Store → ℕ → List ℕ → List ℕ
insert s p_task [] = p_task ∷ []
insert s p_task (t ∷ ts) =
    let rest = insert s p_task ts in
    if leb (s p_task).prio (s t).prio then t ∷ rest else p_task ∷ t ∷ ts

-- An entry keeps its link, its priority and its type.
abbrev pub Same : Store → Store → ℕ → Type 0
Same s s' x = ((s' x).p_lnk ≡ (s x).p_lnk) × ((s' x).prio ≡ (s x).prio)

pub IsChain-Same :
    (s s' : Store) (p : ℕ) (ts : List ℕ)
    → ((x : ℕ) → 0 < count x (p ∷ ts) → (s' x).p_lnk ≡ (s x).p_lnk)
    → IsChain s p ts
    → IsChain s' p ts
IsChain-Same s s' p [] same c = same p (rw (==-same p) (omega arith)) ∙ c
IsChain-Same s s' p (t ∷ ts) same (e, above, c) = (
  same p (rw (==-same p) (omega arith)) ∙ e,
  above,
  IsChain-Same s s' t ts (λ x k. same x (omega arith)) c,
)

-- The list of delays stays.
abbrev pub SameDelays : Store → Store → Type 0
SameDelays s s' =
    (x : ℕ)
    → ((s' x).p_dlnk ≡ (s x).p_dlnk)
      × ((s' x).p_blnk ≡ (s x).p_blnk)
      × ((s' x).delta_time ≡ (s x).delta_time)

-- The links after an insertion.
module _ (sem_mbx : Bool) (p_task : ℕ) (s : Store) (p_cb p_cb2 : ℕ)
    (other : ¬ (p_cb ≡ p_task)) where
  insert_at-prio : (x : ℕ) → (insert_at sem_mbx p_task s p_cb p_cb2 x).prio ≡ (s x).prio
  unfolding insert_at
  insert_at-prio x = grind arith

  insert_at-delays : SameDelays s (insert_at sem_mbx p_task s p_cb p_cb2)
  unfolding insert_at
  insert_at-delays x = (grind arith, grind arith, grind arith)

  insert_at-before : (insert_at sem_mbx p_task s p_cb p_cb2 p_cb).p_lnk ≡ p_task
  unfolding insert_at
  insert_at-before = grind arith

  insert_at-task : (insert_at sem_mbx p_task s p_cb p_cb2 p_task).p_lnk ≡ p_cb2
  unfolding insert_at
  insert_at-task = grind arith

  insert_at-other :
      (x : ℕ)
      → ¬ (x ≡ p_cb)
      → ¬ (x ≡ p_task)
      → (insert_at sem_mbx p_task s p_cb p_cb2 x).p_lnk ≡ (s x).p_lnk
  unfolding insert_at
  insert_at-other x h k = grind arith

-- Where a call leaves the store: the list on `p` has the task in its place, no priority changes, no
-- link outside the list, and nothing of the list of delays.
abbrev pub Inserted : Option Store → Store → ℕ → ℕ → List ℕ → Type 0
Inserted run s p_task p ts =
    (s' : Store) × (run ≡ some s')
    × IsChain s' p (insert s p_task ts)
    × ((x : ℕ) → (s' x).prio ≡ (s x).prio)
    × ((x : ℕ) → count x (p ∷ ts) ≡ 0 → ¬ (x ≡ p_task) → (s' x).p_lnk ≡ (s x).p_lnk)
    × SameDelays s s'

-- The insertion behind `p`, in front of `ts`.
insert_here :
    (sem_mbx : Bool) (s : Store) (p_task p p_cb2 : ℕ) (ts : List ℕ)
    → 0 < p_task
    → ¬ (p ≡ p_task)
    → count p_task ts ≡ 0
    → count p ts ≡ 0
    → IsChain s p ts
    → (s p).p_lnk ≡ p_cb2
    → IsChain (insert_at sem_mbx p_task s p p_cb2) p (p_task ∷ ts)
insert_here sem_mbx s p_task p p_cb2 [] above other fresh once c e = (
  insert_at-before sem_mbx p_task s p p_cb2 other,
  above,
  insert_at-task sem_mbx p_task s p p_cb2 other ∙ sym e ∙ c,
)
insert_here sem_mbx s p_task p p_cb2 (t ∷ ts) above other fresh once (link, pos_t, c) e = (
  insert_at-before sem_mbx p_task s p p_cb2 other,
  above,
  (
    insert_at-task sem_mbx p_task s p p_cb2 other ∙ sym e ∙ link,
    pos_t,
    IsChain-Same s (insert_at sem_mbx p_task s p p_cb2) t ts
        (λ x k.
          insert_at-other sem_mbx p_task s p p_cb2 other x (apart x p once k)
            (apart x p_task fresh k))
        c,
  ),
)
  where
    apart : (x y : ℕ) → count y (t ∷ ts) ≡ 0 → 0 < count x (t ∷ ts) → ¬ (x ≡ y)
    apart x y none_of k same =
        absurd (omega (arith, none_of, subst (λ z. 0 < count z (t ∷ ts)) same k))

pub head_differs : (x p : ℕ) (ts : List ℕ) → count x (p ∷ ts) ≡ 0 → ¬ (x ≡ p)
head_differs x p ts h = grind arith

pub tail_differs : (x p : ℕ) (ts : List ℕ) → count x (p ∷ ts) ≡ 0 → count x ts ≡ 0
tail_differs x p ts h = grind arith

pub head_once : (p : ℕ) (ts : List ℕ) → count p (p ∷ ts) ≤ 1 → count p ts ≡ 0
head_once p ts h = grind arith

-- The search ends at `p`.
module _ (sem_mbx : Bool) (s : Store) (p_task p : ℕ) (ts : List ℕ) (above : 0 < p_task)
    (fresh : count p_task (p ∷ ts) ≡ 0) (once : (x : ℕ) → count x (p ∷ ts) ≤ 1)
    (c : IsChain s p ts) where
  stop_here :
      (run : Option Store)
      → run ≡ some (insert_at sem_mbx p_task s p (s p).p_lnk)
      → insert s p_task ts ≡ p_task ∷ ts
      → Inserted run s p_task p ts
  stop_here run ran first =
      let other = λ (e : p ≡ p_task). head_differs p_task p ts fresh (sym e) in
      (
        insert_at sem_mbx p_task s p (s p).p_lnk,
        ran,
        rw first (
            insert_here sem_mbx s p_task p (s p).p_lnk ts above other
              (tail_differs p_task p ts fresh) (head_once p ts (once p)) c refl),
        (λ x. insert_at-prio sem_mbx p_task s p (s p).p_lnk other x),
        (λ x k o. insert_at-other sem_mbx p_task s p (s p).p_lnk other x (head_differs x p ts k) o),
        insert_at-delays sem_mbx p_task s p (s p).p_lnk other,
      )

put_from-insert :
    (ts : List ℕ) (fuel : ℕ) (sem_mbx : Bool) (s : Store) (p_task p : ℕ)
    → length ts < fuel
    → 0 < p_task
    → count p_task (p ∷ ts) ≡ 0
    → ((x : ℕ) → count x (p ∷ ts) ≤ 1)
    → IsChain s p ts
    → Inserted (put_from fuel sem_mbx (s p_task).prio p_task s p (s p).p_lnk) s p_task p ts
unfolding put_from
put_from-insert ts zero sem_mbx s p_task p enough above fresh once c = absurd (omega arith)
put_from-insert [] (suc fuel) sem_mbx s p_task p enough above fresh once c =
    stop_here sem_mbx s p_task p [] above fresh once c _ (rw c) refl
put_from-insert (t ∷ ts) (suc fuel) sem_mbx s p_task p enough above fresh once (link, pos_t, c) =
    elim (dec_lt (s t).prio (s p_task).prio) [
      | yes lower ↦
          let below = lt→not_leb (s p_task).prio (s t).prio lower in
          stop_here sem_mbx s p_task p (t ∷ ts) above fresh once (link, pos_t, c) _
            (rw (link, not_eq t 0 (omega arith), below) refl) (rw below)
      | no higher ↦
          let behind = le→leb (s p_task).prio (s t).prio (omega arith) in
          let (s1, run, chain, prios, links, delays) =
            put_from-insert ts fuel sem_mbx s p_task t (omega arith) above
              (tail_differs p_task p (t ∷ ts) fresh) (λ x. omega (arith, once x)) c in
          (
            s1,
            rw (link, not_eq t 0 (omega arith), behind) run,
            rw behind (
              links p (head_once p (t ∷ ts) (once p))
                    (λ e. head_differs p_task p (t ∷ ts) fresh (sym e))
                  ∙ link,
              pos_t,
              chain,
            ),
            prios,
            (λ x k o. links x (tail_differs x p (t ∷ ts) k) o),
            delays,
          )
    ]

-- rt_put_prio, with more rounds than the list has tasks, on a list without repeated entries and a
-- task that is not in it; the links back are in Back.
pub put_prio-Inserted :
    (fuel : ℕ) (s : Store) (p_cb p_task : ℕ) (ts : List ℕ)
    → length ts < fuel
    → 0 < p_task
    → count p_task (p_cb ∷ ts) ≡ 0
    → ((x : ℕ) → count x (p_cb ∷ ts) ≤ 1)
    → IsChain s p_cb ts
    → Inserted (put_prio fuel s p_cb p_task) s p_task p_cb ts
unfolding put_prio
put_prio-Inserted fuel s p_cb p_task ts enough above fresh once c =
    put_from-insert ts fuel (is_sem_mbx (s p_cb).cb_type) s p_task p_cb enough above fresh once c
