-- ===== src/Rtx/Mutex/Release.antt =====
-- rt_mut_release hands the mutex to the first task that waits for it.
use remotus_hardware.Base.{
  ℕ, ◌+◌, ◌-◌, ◌≤◌, ◌<◌, ◌≡◌, refl, ap, ◌∙◌, List, ◌∷◌, ◌++◌, if◌then◌else◌, arith, count, Option,
  some, ◌>>=◌, length, ltb, lt→ltb, le→not_ltb, dec_lt, not_eq, ==-same, count_self, count-append,
}
use remotus_hardware.Rtx.Block.{Store, os_rdy, set_prio}
use remotus_hardware.Rtx.Block.Rc
use remotus_hardware.Rtx.PrioList.Laws.{IsChain, IsChain-Same, head_differs}
use remotus_hardware.Rtx.PrioList.Order.{
  IsOrdered, IsOrdered-same, IsOrdered-members, not_in, extend,
}
use remotus_hardware.Rtx.Kernel.{Kernel, Mucb, put, ret_val}
use remotus_hardware.Rtx.Task.{dispatch, make_ready, rdy_prio}
use remotus_hardware.Rtx.Task.Ready.{IsReady}
use remotus_hardware.Rtx.Task.Schedule.{Runs, dispatch-Runs, second_differs, none_but}
use remotus_hardware.Rtx.Task.Yield.{both_ready-dispatch}
use remotus_hardware.Rtx.Waiting.Laws.{take_first_lem}
use remotus_hardware.Rtx.Waiting.Block.{left_once, right_once, left_apart, right_apart, self_once}
use remotus_hardware.Rtx.Mutex.{pass_on, give_up, mut_release, set_mutex}

-- The end of rt_mut_release, when a task `next` has the mutex.
either_way :
    (fuel : ℕ) (k : Kernel) (next t : ℕ) (ts : List ℕ)
    → length (t ∷ ts) + 1 < fuel
    → k.new_tsk ≡ k.run
    → 0 < k.run
    → 0 < next
    → ((x : ℕ) → count x (os_rdy ∷ next ∷ k.run ∷ t ∷ ts) ≤ 1)
    → IsChain k.blocks os_rdy (t ∷ ts)
    → IsOrdered k.blocks (t ∷ ts)
    → Runs k
        (if ltb (k.blocks k.run).prio (k.blocks t).prio
          then (make_ready fuel k k.run >>= λ k1.
              (make_ready fuel k1 next >>= λ k2. dispatch fuel k2 0))
          else dispatch fuel k next)
        (next ∷ k.run ∷ t ∷ ts)
either_way fuel k next t ts enough none_new some_run some_next once c (top, ordered) =
    elim (dec_lt (k.blocks k.run).prio (k.blocks t).prio) [
      | yes lower ↦
          rw (lt→ltb (k.blocks k.run).prio (k.blocks t).prio lower) (
            both_ready-dispatch fuel k next (t ∷ ts) enough some_run some_next once c
              (top, ordered))
      | no higher ↦ rw (le→not_ltb (k.blocks k.run).prio (k.blocks t).prio (omega arith)) (
          dispatch-Runs fuel k next (t ∷ ts) (omega arith) none_new
            (record {
              chain = c;
              once = λ x. omega (arith, once x);
              ordered = (top, ordered);
              highest =
                  extend k.blocks k.blocks (k.blocks k.run).prio t ts (λ y. refl) (omega arith)
                    (λ y m. omega (arith, top y m));
              some_task = some_run;
            })
            (grind (arith, once next, ==-same next)) some_next)
    ]

-- Before the release: `t` and `ts` are ready in order, `w` and `ws` wait for the mutex, and all these,
-- the running task and the heads are different. No task is scheduled.
pub record CanRelease (k : Kernel) (mutex t w : ℕ) (ts ws : List ℕ) : Type 0 where
  pub ready : IsChain k.blocks os_rdy (t ∷ ts)
  pub ordered : IsOrdered k.blocks (t ∷ ts)
  pub waiting : IsChain k.blocks mutex (w ∷ ws)
  pub once : (x : ℕ) → count x ((os_rdy ∷ k.run ∷ t ∷ ts) ++ (w ∷ mutex ∷ ws)) ≤ 1
  pub none_new : k.new_tsk ≡ k.run
  pub some_run : 0 < k.run

-- What pass_on leaves: `w` owns the mutex at level 1 and with its priority as the one to go back
-- to, and finds OS_R_OK in R0; it is off the list of the mutex; of all tasks that can run one of
-- the highest priority runs, and the others are on the ready list in order; no priority changes.
abbrev pub PassedOn : Kernel → Option Kernel → ℕ → ℕ → List ℕ → List ℕ → Type 0
PassedOn k result mutex w ts ws =
    (k1 : Kernel) × (result ≡ some k1)
    × (k1.mutexes mutex ≡ record { prio = (k.blocks w).prio; level = 1; owner = w })
    × ((k1.regs w).0 ≡ 0)
    × ((ts' : List ℕ) × IsReady k1.blocks k1.new_tsk ts'
        × ((x : ℕ) → count x (k1.new_tsk ∷ ts') ≡ count x (w ∷ k.run ∷ ts)))
    × IsChain k1.blocks mutex ws
    × ((x : ℕ) → (k1.blocks x).prio ≡ (k.blocks x).prio)

pass_on_lem :
    (fuel : ℕ) (k : Kernel) (mutex t w : ℕ) (ts ws : List ℕ)
    → length (t ∷ ts) + 1 < fuel
    → CanRelease k mutex t w ts ws
    → PassedOn k (pass_on fuel k mutex) mutex w (t ∷ ts) ws
unfolding pass_on rdy_prio ret_val
pass_on_lem fuel k mutex t w ts ws enough c =
    let xs = os_rdy ∷ k.run ∷ t ∷ ts in
    let ys = w ∷ mutex ∷ ws in
    let (link, some_w, rest) = c.waiting in
    let (s1, taken, chain, prios, links) =
      take_first_lem k (λ k1 task. ret_val k1 task 0) mutex w ws (λ k1 s t. refl)
        (λ x. omega (arith, right_once xs ys c.once x)) c.waiting in
    let m : Mucb = record { prio = (s1 w).prio; level = 1; owner = w } in
    let k1 : Kernel = record (ret_val k w 0) { blocks = s1; mutexes = put k.mutexes mutex m } in
    let (first, some_t, more) = c.ready in
    let ready =
      IsChain-Same k.blocks s1 os_rdy (t ∷ ts)
        (λ x l.
          let none_of = left_apart xs ys c.once x (omega (arith, l)) in
          links x (second_differs x w mutex ws none_of) (head_differs x w (mutex ∷ ws) none_of))
        c.ready in
    let (run, s, ran, sched, same, same_prio) =
      either_way fuel k1 w t ts enough c.none_new c.some_run some_w
        (λ x. omega (arith, c.once x, count-append x xs ys)) ready
        (IsOrdered-same k.blocks s1 (t ∷ ts) prios c.ordered) in
    (
      record k1 { new_tsk = run; blocks = s },
      rw taken (rw (ready.0, not_eq t 0 (omega arith)) ran),
      rw (==-same mutex, prios w) refl,
      rw (==-same w) refl,
      sched,
      IsChain-Same s1 s mutex ws
          (λ x l. same x (
            none_but x os_rdy w (k.run ∷ t ∷ ts) (right_apart xs ys c.once x (omega (arith, l)))
              (not_in x w (mutex ∷ ws) (self_once w (mutex ∷ ws) (right_once xs ys c.once w)) l)))
          chain,
      (λ x. same_prio x ∙ prios x),
    )

base-lnk : (s : Store) (p v x : ℕ) → (set_prio s p v x).p_lnk ≡ (s x).p_lnk
base-lnk s p v x = grind arith

run-none : (x t : ℕ) (ts : List ℕ) → count x (os_rdy ∷ x ∷ t ∷ ts) ≤ 1 → count x (t ∷ ts) ≡ 0
run-none x t ts h = grind (arith, ==-same x)

base-prio : (s : Store) (p v x : ℕ) → ¬ (x ≡ p) → (set_prio s p v x).prio ≡ (s x).prio
base-prio s p v x h = grind arith

give_up_lem :
    (fuel : ℕ) (k : Kernel) (mutex t w : ℕ) (ts ws : List ℕ)
    → length (t ∷ ts) + 1 < fuel
    → CanRelease k mutex t w ts ws
    → (k1 : Kernel) × (give_up fuel k mutex ≡ some k1)
      × (k1.mutexes mutex ≡ record { prio = (k.blocks w).prio; level = 1; owner = w })
      × ((k1.regs w).0 ≡ 0)
      × ((ts' : List ℕ) × IsReady k1.blocks k1.new_tsk ts'
          × ((x : ℕ) → count x (k1.new_tsk ∷ ts') ≡ count x (w ∷ k.run ∷ t ∷ ts)))
      × IsChain k1.blocks mutex ws
      × ((k1.blocks k.run).prio ≡ (k.mutexes mutex).prio)
unfolding give_up
give_up_lem fuel k mutex t w ts ws enough c =
    let base = (k.mutexes mutex).prio in
    let s = set_prio k.blocks k.run base in
    let kk : Kernel = record k { blocks = s } in
    let xs = os_rdy ∷ k.run ∷ t ∷ ts in
    let ys = w ∷ mutex ∷ ws in
    let w_apart = right_apart xs ys c.once w (count_self w (mutex ∷ ws)) in
    let fresh = run-none k.run t ts (left_once xs ys c.once k.run) in
    let (k1, ran, owned, r0, ready, chain, prios) =
      pass_on_lem fuel kk mutex t w ts ws enough (record {
        ready =
            IsChain-Same k.blocks s os_rdy (t ∷ ts) (λ x l. base-lnk k.blocks k.run base x) c.ready;
        ordered =
            IsOrdered-members k.blocks s (t ∷ ts)
              (λ x l. base-prio k.blocks k.run base x (not_in x k.run (t ∷ ts) fresh l)) c.ordered;
        waiting =
            IsChain-Same k.blocks s mutex (w ∷ ws) (λ x l. base-lnk k.blocks k.run base x)
              c.waiting;
        once = c.once;
        none_new = c.none_new;
        some_run = c.some_run;
      }) in
    let (link, some_w, rest) = c.waiting in
    (
      k1,
      rw (base-lnk k.blocks k.run base mutex, link, not_eq w 0 (omega arith)) ran,
      owned
          ∙ ap (λ v. record { prio = v; level = 1; owner = w })
              (base-prio k.blocks k.run base w (second_differs w os_rdy k.run (t ∷ ts) w_apart)),
      r0,
      ready,
      chain,
      prios k.run ∙ rw (==-same k.run) refl,
    )

release_last :
    (fuel : ℕ) (k : Kernel) (mutex : ℕ)
    → (k.mutexes mutex).level ≡ 1
    → (k.mutexes mutex).owner ≡ k.run
    → mut_release fuel k mutex ≡ (
        give_up fuel
          (set_mutex k mutex (record (k.mutexes mutex) { level = (k.mutexes mutex).level - 1 }))
          mutex
        >>= λ k1. some (Rc.ok, k1))
unfolding mut_release
release_last fuel k mutex held own = rw (held, own, ==-same k.run) refl

-- rt_mut_release of the owner at level 1 with tasks waiting, with two rounds more than tasks are
-- ready: the result is OS_R_OK; the first that waits, here `w`, owns the mutex at level 1 and finds
-- OS_R_OK in R0; it is off the list of the mutex; the priority that the owner had when it took the
-- mutex counts from now on; of all tasks that can run one of the highest priority runs, and the
-- others are on the ready list in order. A task is ready before the call.
pub mut_release-passes :
    (fuel : ℕ) (k : Kernel) (mutex t w : ℕ) (ts ws : List ℕ)
    → length (t ∷ ts) + 1 < fuel
    → (k.mutexes mutex).level ≡ 1
    → (k.mutexes mutex).owner ≡ k.run
    → CanRelease k mutex t w ts ws
    → (k1 : Kernel) × (mut_release fuel k mutex ≡ some (Rc.ok, k1))
      × (k1.mutexes mutex ≡ record { prio = (k.blocks w).prio; level = 1; owner = w })
      × ((k1.regs w).0 ≡ 0)
      × ((ts' : List ℕ) × IsReady k1.blocks k1.new_tsk ts'
          × ((x : ℕ) → count x (k1.new_tsk ∷ ts') ≡ count x (w ∷ k.run ∷ t ∷ ts)))
      × IsChain k1.blocks mutex ws
      × ((k1.blocks k.run).prio ≡ (k.mutexes mutex).prio)
mut_release-passes fuel k mutex t w ts ws enough held own c =
    let k0 : Kernel =
      set_mutex k mutex (record (k.mutexes mutex) { level = (k.mutexes mutex).level - 1 }) in
    let (k1, ran, owned, r0, ready, chain, base) =
      give_up_lem fuel k0 mutex t w ts ws enough (record {
        ready = c.ready;
        ordered = c.ordered;
        waiting = c.waiting;
        once = c.once;
        none_new = c.none_new;
        some_run = c.some_run;
      }) in
    (
      k1,
      release_last fuel k mutex held own ∙ ap (λ o. o >>= λ k2. some (Rc.ok, k2)) ran,
      owned,
      r0,
      ready,
      chain,
      base ∙ rw (==-same mutex) refl,
    )
