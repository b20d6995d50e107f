-- ===== src/Rtx/PrioList/Order.antt =====
-- The order of a list of tasks, and the calls at its head.
use remotus_hardware.Base.{
  ◌⊎◌, inl, inr, ℕ, ◌+◌, ◌≤◌, ◌<◌, ◌≡◌, refl, subst, ◌∙◌, some, Option, List, [], ◌∷◌, Bool, length,
  arith, count_self, not_eq, count, le→leb, lt→not_leb, dec_lt,
}
use remotus_hardware.Rtx.PrioList.{
  is_sem_mbx, put_prio, unlink, get_first, put_rdy_first, resort_prio,
}
use remotus_hardware.Rtx.Block.{Store, os_rdy}
use remotus_hardware.Rtx.Block.State
use remotus_hardware.Rtx.PrioList.Laws.{
  IsChain, SameDelays, insert, IsChain-Same, put_prio-Inserted, head_differs, head_once,
  tail_differs,
}

-- No task stands before one of higher priority.
abbrev pub IsOrdered : Store → List ℕ → Type 0
IsOrdered s [] = Unit {0}
IsOrdered s (t ∷ ts) = ((x : ℕ) → 0 < count x ts → (s x).prio ≤ (s t).prio) × IsOrdered s ts

pub count-insert :
    (s : Store) (p_task x : ℕ) (ts : List ℕ) → count x (insert s p_task ts) ≡ count x (p_task ∷ ts)
count-insert s p_task x [] = refl
count-insert s p_task x (t ∷ ts) = grind (arith, count-insert s p_task x ts)

pub length-insert : (s : Store) (y : ℕ) (ts : List ℕ) → length (insert s y ts) ≡ length ts + 1
length-insert s y [] = refl
length-insert s y (t ∷ ts) = grind (arith, length-insert s y ts)

pub member_cases : (x t : ℕ) (ts : List ℕ) → 0 < count x (t ∷ ts) → (x ≡ t) ⊎ (0 < count x ts)
member_cases x t ts h = grind arith

-- A bound on the priorities of some tasks holds of one more that keeps it.
pub extend :
    (s s' : Store) (m t : ℕ) (ts : List ℕ)
    → ((x : ℕ) → (s' x).prio ≡ (s x).prio)
    → (s t).prio ≤ m
    → ((x : ℕ) → 0 < count x ts → (s x).prio ≤ m)
    → (x : ℕ) → 0 < count x (t ∷ ts)
    → (s' x).prio ≤ m
extend s s' m t ts same head tail x k = elim (member_cases x t ts k) [
  | inl e ↦ rw (e, same t) head
  | inr l ↦ rw (same x) (tail x l)
]

pub IsOrdered-same :
    (s s' : Store) (ts : List ℕ)
    → ((x : ℕ) → (s' x).prio ≡ (s x).prio)
    → IsOrdered s ts
    → IsOrdered s' ts
IsOrdered-same s s' [] same o = o
IsOrdered-same s s' (t ∷ ts) same (top, o) =
    ((λ x k. rw (same x, same t) (top x k)), IsOrdered-same s s' ts same o)

-- The same for priorities that agree on the list.
pub IsOrdered-members :
    (s s' : Store) (ts : List ℕ)
    → ((x : ℕ) → 0 < count x ts → (s' x).prio ≡ (s x).prio)
    → IsOrdered s ts
    → IsOrdered s' ts
IsOrdered-members s s' [] same o = o
IsOrdered-members s s' (t ∷ ts) same (top, o) = (
  (λ x k. rw (same x (omega arith), same t (count_self t ts)) (top x k)),
  IsOrdered-members s s' ts (λ x k. same x (omega arith)) o,
)

pub insert-IsOrdered :
    (s s' : Store) (p_task : ℕ) (ts : List ℕ)
    → ((x : ℕ) → (s' x).prio ≡ (s x).prio)
    → IsOrdered s ts
    → IsOrdered s' (insert s p_task ts)
insert-IsOrdered s s' p_task [] same o = ((λ x k. absurd (omega arith)), tt)
insert-IsOrdered s s' p_task (t ∷ ts) same (top, o) = elim (dec_lt (s t).prio (s p_task).prio) [
  | yes lower ↦ rw (lt→not_leb (s p_task).prio (s t).prio lower) (
    (λ x k.
        rw (same p_task) (
          extend s s' (s p_task).prio t ts same (omega arith) (λ y l. omega (arith, top y l)) x k)),
    IsOrdered-same s s' (t ∷ ts) same (top, o),
  )
  | no higher ↦ rw (le→leb (s p_task).prio (s t).prio (omega arith)) (
    (λ x k. rw (same t) (
        extend s s' (s t).prio p_task ts same (omega arith) top x
          (rw (count-insert s p_task x ts) at k))),
    insert-IsOrdered s s' p_task ts same o,
  )
]

-- On a list in order without repeated entries, for a task that is not in it and with more rounds than
-- it has tasks, rt_put_prio leaves a list in order, with the task and all that were there.
pub put_prio-IsOrdered :
    (fuel : ℕ) (s : Store) (p_cb p_task : ℕ) (ts : List ℕ)
    → length ts < fuel
    → 0 < p_task
    → count p_task (p_cb ∷ ts) ≡ 0
    → ((x : ℕ) → count x (p_cb ∷ ts) ≤ 1)
    → IsChain s p_cb ts
    → IsOrdered s ts
    → (s' : Store) × (put_prio fuel s p_cb p_task ≡ some s')
      × ((ts' : List ℕ) × IsChain s' p_cb ts'
          × IsOrdered s' ts'
          × ((x : ℕ) → count x ts' ≡ count x (p_task ∷ ts)))
put_prio-IsOrdered fuel s p_cb p_task ts enough above fresh once c o =
    let (s', run, chain, same, links, delays) =
      put_prio-Inserted fuel s p_cb p_task ts enough above fresh once c in
    (
      s',
      run,
      (
        insert s p_task ts,
        chain,
        insert-IsOrdered s s' p_task ts same o,
        (λ x. count-insert s p_task x ts),
      ),
    )

-- The tasks of a list hang on another entry.
pub IsChain-move :
    (s s' : Store) (p q : ℕ) (ts : List ℕ)
    → (s' p).p_lnk ≡ (s q).p_lnk
    → ((x : ℕ) → 0 < count x ts → (s' x).p_lnk ≡ (s x).p_lnk)
    → IsChain s q ts
    → IsChain s' p ts
IsChain-move s s' p q [] link same c = link ∙ c
IsChain-move s s' p q (t ∷ ts) link same (e, above, c) =
    (link ∙ e, above, IsChain-Same s s' t ts same c)

module _ (sem_mbx : Bool) (s : Store) (p_cb first : ℕ) (other : ¬ (p_cb ≡ first)) where
  pub unlink-head : (unlink sem_mbx s p_cb first (s first).p_lnk p_cb).p_lnk ≡ (s first).p_lnk
  unfolding unlink
  unlink-head = grind arith

  pub unlink-prio : (x : ℕ) → (unlink sem_mbx s p_cb first (s first).p_lnk x).prio ≡ (s x).prio
  unfolding unlink
  unlink-prio x = grind arith

  unlink-delays : SameDelays s (unlink sem_mbx s p_cb first (s first).p_lnk)
  unfolding unlink
  unlink-delays x = (grind arith, grind arith, grind arith)

  pub unlink-first : (unlink sem_mbx s p_cb first (s first).p_lnk first).p_lnk ≡ 0
  unfolding unlink
  unlink-first = grind arith

  pub unlink-other :
      (x : ℕ)
      → ¬ (x ≡ p_cb)
      → ¬ (x ≡ first)
      → (unlink sem_mbx s p_cb first (s first).p_lnk x).p_lnk ≡ (s x).p_lnk
  unfolding unlink
  unlink-other x h k = grind arith

pub not_in : (x y : ℕ) (ts : List ℕ) → count y ts ≡ 0 → 0 < count x ts → ¬ (x ≡ y)
not_in x y ts none_of k e = absurd (omega (arith, none_of, subst (λ z. 0 < count z ts) e k))

-- What rt_get_first answers and leaves: the first task `t`, whose link it cuts, the others on the list
-- in their order, all priorities, the links outside the list, and those of the delays.
abbrev pub Taken : Option (ℕ × Store) → Store → ℕ → ℕ → List ℕ → Type 0
Taken run s p_cb t ts =
    (s' : Store) × (run ≡ some (t, s'))
    × IsChain s' p_cb ts
    × ((s' t).p_lnk ≡ 0)
    × ((x : ℕ) → (s' x).prio ≡ (s x).prio)
    × ((x : ℕ) → ¬ (x ≡ p_cb) → ¬ (x ≡ t) → (s' x).p_lnk ≡ (s x).p_lnk)
    × SameDelays s s'

-- rt_get_first on a list without repeated entries whose first task is `t`: it answers `t`, leaves the
-- others on the list in their order, cuts the link of `t`, and changes no priority, no link p_lnk but
-- those of the head and of `t`, and nothing of the list of delays.
pub get_first_lem :
    (s : Store) (p_cb t : ℕ) (ts : List ℕ)
    → ((x : ℕ) → count x (p_cb ∷ t ∷ ts) ≤ 1)
    → IsChain s p_cb (t ∷ ts)
    → Taken (get_first s p_cb) s p_cb t ts
unfolding get_first
get_first_lem s p_cb t ts once (link, above, c) =
    let sem_mbx = is_sem_mbx (s p_cb).cb_type in
    let alone = head_once p_cb (t ∷ ts) (once p_cb) in
    let other = head_differs p_cb t ts alone in
    let no_t = head_once t ts (omega (arith, once t)) in
    (
      unlink sem_mbx s p_cb t (s t).p_lnk,
      rw (link, not_eq t 0 (omega arith)),
      IsChain-move s (unlink sem_mbx s p_cb t (s t).p_lnk) p_cb t ts
          (unlink-head sem_mbx s p_cb t other)
          (λ x k.
            unlink-other sem_mbx s p_cb t other x
              (not_in x p_cb ts (tail_differs p_cb t ts alone) k) (not_in x t ts no_t k))
          c,
      unlink-first sem_mbx s p_cb t other,
      unlink-prio sem_mbx s p_cb t other,
      unlink-other sem_mbx s p_cb t other,
      unlink-delays sem_mbx s p_cb t other,
    )

module _ (s : Store) (p_task : ℕ) where
  pub rdy_head : (put_rdy_first s p_task os_rdy).p_lnk ≡ p_task
  unfolding put_rdy_first
  rdy_head = grind arith

  pub rdy_task : ¬ (p_task ≡ os_rdy) → (put_rdy_first s p_task p_task).p_lnk ≡ (s os_rdy).p_lnk
  unfolding put_rdy_first
  rdy_task h = grind arith

  pub rdy_prio-put : (x : ℕ) → (put_rdy_first s p_task x).prio ≡ (s x).prio
  unfolding put_rdy_first
  rdy_prio-put x = grind arith

  pub rdy_other :
      (x : ℕ) → ¬ (x ≡ os_rdy) → ¬ (x ≡ p_task) → (put_rdy_first s p_task x).p_lnk ≡ (s x).p_lnk
  unfolding put_rdy_first
  rdy_other x h k = grind arith

-- rt_put_rdy_first puts a task that is not on the ready list before all that are.
pub put_rdy_first_lem :
    (s : Store) (p_task : ℕ) (ts : List ℕ)
    → 0 < p_task
    → count p_task (os_rdy ∷ ts) ≡ 0
    → count os_rdy ts ≡ 0
    → IsChain s os_rdy ts
    → IsChain (put_rdy_first s p_task) os_rdy (p_task ∷ ts)
unfolding put_rdy_first
put_rdy_first_lem s p_task ts above fresh once c =
    let other = head_differs p_task os_rdy ts fresh in
    let no_task = tail_differs p_task os_rdy ts fresh in
    (
      rdy_head s p_task,
      above,
      IsChain-move s (put_rdy_first s p_task) p_task os_rdy ts (rdy_task s p_task other)
          (λ x k. rdy_other s p_task x (not_in x os_rdy ts once k) (not_in x p_task ts no_task k))
          c,
    )

-- A task that is on no list is sorted nowhere.
pub resort_prio-stays :
    (fuel : ℕ) (s : Store) (p_task state : ℕ)
    → (s p_task).p_rlnk ≡ 0
    → (s p_task).state ≡ state
    → ¬ (state ≡ State.ready)
    → resort_prio fuel s p_task ≡ some s
unfolding resort_prio
resort_prio-stays fuel s p_task state no_list is other =
    rw (no_list, is, not_eq state State.ready other) refl
