-- ===== src/Rtx/Task/Schedule.antt =====
-- rt_dispatch and the calls that end with it leave the task of the highest priority running.
use remotus_hardware.Base.{
  ℕ, ◌≤◌, ◌<◌, ◌≡◌, refl, ◌∙◌, List, [], ◌∷◌, arith, count, Option, some, length, not_eq, dec_lt,
  lt→ltb, le→not_ltb,
}
use remotus_hardware.Rtx.Block.{Store, os_rdy, set_state}
use remotus_hardware.Rtx.Block.State
use remotus_hardware.Rtx.PrioList.{put_rdy_first}
use remotus_hardware.Rtx.PrioList.Laws.{IsChain, insert, head_differs, tail_differs}
use remotus_hardware.Rtx.PrioList.Order.{
  IsOrdered, IsOrdered-same, rdy_other, rdy_prio-put, get_first_lem, count-insert,
}
use remotus_hardware.Rtx.Kernel.{Kernel}
use remotus_hardware.Rtx.Task.{switch_req, switch_first, dispatch_task, dispatch}
use remotus_hardware.Rtx.Task.Ready.{IsReady, IsReady-agree, IsReady-preempt, IsReady-put}

-- The call returns with a new store, and of the tasks `all` one of the highest priority runs from
-- now on; the others are on the ready list in order, each once. Nothing else of the kernel changes,
-- no link p_lnk outside the ready list, and no priority.
abbrev pub Runs : Kernel → Option Kernel → List ℕ → Type 0
Runs k result all =
    (run : ℕ) × (s : Store) × (result ≡ some (record k { new_tsk = run; blocks = s }))
    × ((ts : List ℕ) × IsReady s run ts × ((x : ℕ) → count x (run ∷ ts) ≡ count x all))
    × ((x : ℕ) → count x (os_rdy ∷ all) ≡ 0 → (s x).p_lnk ≡ (k.blocks x).p_lnk)
    × ((x : ℕ) → (s x).prio ≡ (k.blocks x).prio)

state_prio :
    (s : Store) (p v x y : ℕ)
    → (s x).prio ≤ (s y).prio
    → (set_state s p v x).prio ≤ (set_state s p v y).prio
state_prio s p v x y h = grind arith

pub state-lnk : (s : Store) (p v x : ℕ) → (set_state s p v x).p_lnk ≡ (s x).p_lnk
state-lnk s p v x = grind arith

-- An entry that is none of the others.
pub outside : (x y : ℕ) (ts : List ℕ) → count x (os_rdy ∷ y ∷ ts) ≡ 0 → count x (os_rdy ∷ ts) ≡ 0
outside x y ts h = omega arith

pub inserted :
    (x y : ℕ) (s : Store) (ts : List ℕ)
    → count x (os_rdy ∷ insert s y ts) ≡ 0
    → count x (os_rdy ∷ y ∷ ts) ≡ 0
inserted x y s ts h = omega (arith, h, count-insert s y x ts)

pub second_differs : (x y z : ℕ) (ts : List ℕ) → count x (y ∷ z ∷ ts) ≡ 0 → ¬ (x ≡ z)
second_differs x y z ts h = grind arith

pub none_but :
    (x y z : ℕ) (ts : List ℕ) → count x (y ∷ ts) ≡ 0 → ¬ (x ≡ z) → count x (y ∷ z ∷ ts) ≡ 0
none_but x y z ts h k = grind arith

pub third_differs : (x y z w : ℕ) (ts : List ℕ) → count x (y ∷ z ∷ w ∷ ts) ≡ 0 → ¬ (x ≡ w)
third_differs x y z w ts h = grind arith

-- The call starts from another store with the same priorities and links outside the ready list.
pub Runs-moved :
    (k : Kernel) (s : Store) (result : Option Kernel) (all : List ℕ)
    → ((x : ℕ) → count x (os_rdy ∷ all) ≡ 0 → (s x).p_lnk ≡ (k.blocks x).p_lnk)
    → ((x : ℕ) → (s x).prio ≡ (k.blocks x).prio)
    → Runs (record k { blocks = s }) result all
    → Runs k result all
Runs-moved k s result all same same_prio (run, s', ran, ready, links, prios) =
    (run, s', ran, ready, (λ x h. links x h ∙ same x h), (λ x. prios x ∙ same_prio x))

pub state_prio-same :
    (s s' : Store) (p v x : ℕ) → (s' x).prio ≡ (s x).prio → (set_state s' p v x).prio ≡ (s x).prio
state_prio-same s s' p v x h = grind arith

-- States are not what the order reads.
pub IsReady-state :
    (s : Store) (p v run : ℕ) (ts : List ℕ) → IsReady s run ts → IsReady (set_state s p v) run ts
IsReady-state s p v run ts r =
    IsReady-agree s (set_state s p v) run ts (λ x. grind arith) (λ x k. grind arith) r

module _ (fuel : ℕ) (k : Kernel) (next : ℕ) (ts : List ℕ) (r : IsReady k.blocks k.run ts)
    (fresh : count next (os_rdy ∷ k.run ∷ ts) ≡ 0) (some_next : 0 < next) where
  take_over :
      (k.blocks k.run).prio < (k.blocks next).prio
      → Runs k (dispatch_task fuel k next) (next ∷ k.run ∷ ts)
  unfolding dispatch_task switch_req
  take_over lower =
      let s1 = put_rdy_first k.blocks k.run in
      let s2 = set_state s1 k.run State.ready in
      (
        next,
        set_state s2 next State.running,
        rw (lt→ltb (k.blocks k.run).prio (k.blocks next).prio lower, not_eq next 0 (omega arith))
            refl,
        (
          k.run ∷ ts,
          IsReady-state s2 next State.running next (k.run ∷ ts) (
              IsReady-state s1 k.run State.ready next (k.run ∷ ts)
                (IsReady-preempt k.blocks k.run next ts r (omega arith) fresh some_next)),
          (λ x. refl),
        ),
        (λ x h.
            state-lnk s2 next State.running x
            ∙ state-lnk s1 k.run State.ready x
            ∙ rdy_other k.blocks k.run x (head_differs x os_rdy (next ∷ k.run ∷ ts) h)
                (third_differs x os_rdy next k.run ts h)),
        (λ x.
            state_prio-same k.blocks s2 next State.running x
              (state_prio-same k.blocks s1 k.run State.ready x (rdy_prio-put k.blocks k.run x))),
      )

  stay_ready :
      length ts < fuel
      → k.new_tsk ≡ k.run
      → (k.blocks next).prio ≤ (k.blocks k.run).prio
      → Runs k (dispatch_task fuel k next) (next ∷ k.run ∷ ts)
  unfolding dispatch_task
  stay_ready enough none_new below =
      let s = set_state k.blocks next State.ready in
      let (s', ran, r', links, prios) =
        IsReady-put fuel s k.run next ts enough (IsReady-state k.blocks next State.ready k.run ts r)
          (state_prio k.blocks next State.ready next k.run below) fresh some_next in
      (
        k.new_tsk,
        s',
        rw (le→not_ltb (k.blocks k.run).prio (k.blocks next).prio below, ran) refl,
        (
          insert s next ts,
          rw none_new r',
          (λ x. rw none_new (omega (arith, count-insert s next x ts))),
        ),
        (λ x h.
            links x (omega (arith, h)) (second_differs x os_rdy next (k.run ∷ ts) h)
            ∙ state-lnk k.blocks next State.ready x),
        (λ x. prios x ∙ state_prio-same k.blocks k.blocks next State.ready x refl),
      )

-- rt_dispatch of a task that is neither running nor ready: of all tasks one of the highest priority
-- runs, and the others are on the ready list in order. Before the call the running task has at
-- least the priority of every ready one, no other is scheduled, and the rounds are more than the
-- list has tasks.
pub dispatch-Runs :
    (fuel : ℕ) (k : Kernel) (next : ℕ) (ts : List ℕ)
    → length ts < fuel
    → k.new_tsk ≡ k.run
    → IsReady k.blocks k.run ts
    → count next (os_rdy ∷ k.run ∷ ts) ≡ 0
    → 0 < next
    → Runs k (dispatch fuel k next) (next ∷ k.run ∷ ts)
unfolding dispatch
dispatch-Runs fuel k next ts enough none_new r fresh some_next =
    rw (not_eq next 0 (omega arith)) (elim (dec_lt (k.blocks k.run).prio (k.blocks next).prio) [
      | yes lower ↦ take_over fuel k next ts r fresh some_next lower
      | no higher ↦ stay_ready fuel k next ts r fresh some_next enough none_new (omega arith)
    ])

-- `rt_dispatch (NULL)` when the running task is on no list any more: the first ready task runs, it
-- has the highest priority, and the others stay on the ready list in order.
pub dispatch-first :
    (fuel : ℕ) (k : Kernel) (t : ℕ) (ts : List ℕ)
    → ((x : ℕ) → count x (os_rdy ∷ t ∷ ts) ≤ 1)
    → IsChain k.blocks os_rdy (t ∷ ts)
    → IsOrdered k.blocks (t ∷ ts)
    → Runs k (dispatch fuel k 0) (t ∷ ts)
unfolding dispatch switch_first switch_req
dispatch-first fuel k t ts once c (top, ordered) =
    let (link, above, rest) = c in
    let (s', ran, chain, cut, prios, links, delays) = get_first_lem k.blocks os_rdy t ts once c in
    (
      t,
      set_state s' t State.running,
      rw (ran, not_eq t 0 (omega arith)) refl,
      (
        ts,
        IsReady-state s' t State.running t ts (record {
          chain = chain;
          once = once;
          ordered = IsOrdered-same k.blocks s' ts prios ordered;
          highest = λ x k. rw (prios x, prios t) (top x k);
          some_task = above;
        }),
        (λ x. refl),
      ),
      (λ x h.
          state-lnk s' t State.running x
          ∙ links x (head_differs x os_rdy (t ∷ ts) h)
              (head_differs x t ts (tail_differs x os_rdy (t ∷ ts) h))),
      (λ x. state_prio-same k.blocks s' t State.running x (prios x)),
    )

pub dispatch-some :
    (fuel : ℕ) (k : Kernel) (some_task : ℕ) (ts : List ℕ)
    → 0 < count some_task ts
    → ((x : ℕ) → count x (os_rdy ∷ ts) ≤ 1)
    → IsChain k.blocks os_rdy ts
    → IsOrdered k.blocks ts
    → Runs k (dispatch fuel k 0) ts
dispatch-some fuel k some_task [] has once c ordered = absurd (omega arith)
dispatch-some fuel k some_task (t ∷ ts) has once c ordered =
    dispatch-first fuel k t ts once c ordered

pub same_tasks :
    (k : Kernel) (result : Option Kernel) (xs ys : List ℕ)
    → ((x : ℕ) → count x xs ≡ count x ys)
    → Runs k result xs
    → Runs k result ys
same_tasks k result xs ys same (run, s, ran, (ts, r, tasks), links, prios) =
    (run, s, ran, (ts, r, (λ x. tasks x ∙ same x)), (λ x h. links x (omega (arith, same x))), prios)
