-- ===== src/Rtx/DelayList/Expire.antt =====
-- The loop of rt_dec_dly, which ends the delays whose time has come.
use remotus_hardware.Base.{
  ℕ, zero, suc, ◌+◌, ◌≤◌, ◌<◌, ◌≡◌, refl, sym, ◌∙◌, Option, some, List, [], ◌∷◌, false,
  if◌then◌else◌, length, arith, count, count_self, subst, ◌==◌, not_eq, ==-same, ℕ_discrete, inl,
  inr,
}
use remotus_hardware.Rtx.Block.{Store, os_rdy, os_dly}
use remotus_hardware.Rtx.Block.State
use remotus_hardware.Rtx.DelayList.{expire, wake}
use remotus_hardware.Rtx.DelayList.Links.{tasks, IsDelay}
use remotus_hardware.Rtx.DelayList.Leave.{wake_lem}
use remotus_hardware.Rtx.PrioList.{is_sem_mbx}
use remotus_hardware.Rtx.PrioList.Laws.{IsChain, insert, head_differs, tail_differs}
use remotus_hardware.Rtx.PrioList.Order.{
  IsOrdered, count-insert, length-insert, member_cases, not_in,
}
use remotus_hardware.Rtx.PrioList.Frame.{SameRest, SameRest-trans}

-- The tasks at the front whose time has come, and the list behind them.
abbrev pub due : List (ℕ × ℕ) → List ℕ
due [] = []
due ((t, e) ∷ ds) = let rest = due ds in if e == 0 then t ∷ rest else []

abbrev pub pending : List (ℕ × ℕ) → List (ℕ × ℕ)
pending [] = []
pending ((t, e) ∷ ds) = let rest = pending ds in if e == 0 then rest else (t, e) ∷ ds

-- The call returns; the tasks that are due have become ready and joined the ready ones by priority, the
-- others are on the list of delays, and no priority changes.
abbrev pub Ticked : Option Store → Store → List ℕ → List (ℕ × ℕ) → Type 0
Ticked run s ts ds =
    (s' : Store) × (run ≡ some s')
    × IsDelay s' os_dly 0 (pending ds)
    × ((ts' : List ℕ) × IsChain s' os_rdy ts'
        × IsOrdered s' ts'
        × ((x : ℕ) → count x ts' ≡ count x (due ds) + count x ts))
    × ((x : ℕ) → (s' x).prio ≡ (s x).prio)
    × ((x : ℕ) → 0 < count x (due ds) → (s' x).state ≡ State.ready)
    × ((x : ℕ) → count x (due ds) ≡ 0 → SameRest s s' x)

due_fresh : (x : ℕ) (ds : List (ℕ × ℕ)) → count x (tasks ds) ≡ 0 → count x (due ds) ≡ 0
due_fresh x [] h = refl
due_fresh x ((t, e) ∷ ds) h =
    let rest = due_fresh x ds (tail_differs x t (tasks ds) h) in
    elim (ℕ_discrete e 0) [ yes now ↦ rw now (grind arith) | no later ↦ rw (not_eq e 0 later) refl ]

expire-wake :
    (rounds fuel : ℕ) (s s1 : Store) (time t : ℕ)
    → (s os_dly).delta_time ≡ 0
    → (s os_dly).p_dlnk ≡ t
    → 0 < t
    → wake fuel s time t ≡ some s1
    → expire (suc rounds) fuel s time ≡ expire rounds fuel s1 time
unfolding expire
expire-wake rounds fuel s s1 time t zero_left link some_t ran =
    rw (zero_left, link, not_eq t 0 (omega arith), ran) refl

module _ (t : ℕ) (ds : List (ℕ × ℕ)) (ts : List ℕ)
    (once : count t (os_rdy ∷ os_dly ∷ t ∷ tasks ds) + count t ts ≤ 1) where
  first_fresh : count t (os_rdy ∷ ts) ≡ 0
  first_fresh = grind (arith, ==-same t)

  first_once : count t (tasks ds) ≡ 0
  first_once = grind (arith, ==-same t)

pub expire_lem :
    (rounds fuel : ℕ) (s : Store) (time : ℕ) (ts : List ℕ) (ds : List (ℕ × ℕ))
    → length ds < rounds
    → length ts + length ds ≤ fuel
    → is_sem_mbx (s os_rdy).cb_type ≡ false
    → ((x : ℕ) → 0 < count x (tasks ds) → (s x).p_rlnk ≡ 0)
    → ((x : ℕ) → count x (os_rdy ∷ os_dly ∷ tasks ds) + count x ts ≤ 1)
    → IsChain s os_rdy ts
    → IsOrdered s ts
    → IsDelay s os_dly 0 ds
    → Ticked (expire rounds fuel s time) s ts ds
unfolding expire
expire_lem zero fuel s time ts ds rounds enough plain no_list once c ordered d =
    absurd (omega arith)
expire_lem (suc rounds) fuel s time ts [] more enough plain no_list once c ordered
      (link, zero_left) =
    rw (zero_left, link)
      (
        s,
        refl,
        (link, zero_left),
        (ts, c, ordered, (λ x. omega arith)),
        (λ x. refl),
        (λ x k. absurd (omega arith)),
        (λ x k. (refl, refl, refl)),
      )
expire_lem (suc rounds) fuel s time ts ((t, e) ∷ ds) more enough plain no_list once c ordered d =
    elim (ℕ_discrete e 0) [
      | no later ↦
          let delta : (s os_dly).delta_time ≡ e = omega (arith, d.3) in
          rw (not_eq e 0 later) (
            s,
            rw (delta, not_eq e 0 later) refl,
            d,
            (ts, c, ordered, (λ x. omega arith)),
            (λ x. refl),
            (λ x k. absurd (omega arith)),
            (λ x k. (refl, refl, refl)),
          )
      | yes now ↦
          let d0 = subst (λ z. IsDelay s os_dly 0 ((t, z) ∷ ds)) now d in
          let (link, some_t, blnk, zero_left, small, rest) = d0 in
          let fresh = first_fresh t ds ts (once t) in
          let no_t = first_once t ds ts (once t) in
          let rdy_other = λ (same : os_rdy ≡ t). head_differs t os_rdy ts fresh (sym same) in
          let (s1, ran, d1, c1, ordered1, prios1, rest1, state1) =
            wake_lem fuel s time t ts ds (omega arith) plain (no_list t (count_self t (tasks ds)))
              (λ x. omega (arith, once x)) fresh (λ x. omega (arith, once x)) c ordered d0 in
          let (s', ran', d', (ts', c', ordered', sum), prios', states, rest') =
            expire_lem rounds fuel s1 time (insert s t ts) ds (omega arith)
              (rw (length-insert s t ts) (omega arith)) (rw (rest1 os_rdy rdy_other).0 plain)
              (λ x k. (rest1 x (not_in x t (tasks ds) no_t k)).2 ∙ no_list x (omega arith))
              (λ x. omega (arith, once x, count-insert s t x ts)) c1 ordered1 d1 in
          rw now (
            s',
            expire-wake rounds fuel s s1 time t (omega (arith, zero_left)) link some_t ran ∙ ran',
            d',
            (ts', c', ordered', (λ x. omega (arith, sum x, count-insert s t x ts))),
            (λ x. prios' x ∙ prios1 x),
            (λ x k. elim (member_cases x t (due ds) k) [
              | inl same ↦ rw same ((rest' t (due_fresh t ds no_t)).1 ∙ state1)
              | inr more_due ↦ states x more_due
            ]),
            (λ x k.
                SameRest-trans s s1 s' x (rest1 x (head_differs x t (due ds) k))
                  (rest' x (tail_differs x t (due ds) k))),
          )
    ]
