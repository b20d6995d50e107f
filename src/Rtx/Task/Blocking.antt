-- ===== src/Rtx/Task/Blocking.antt =====
-- rt_block: the running task waits, with or without a timeout, and the first ready task runs.
use remotus_hardware.Base.{
  ℕ, ◌≤◌, ◌<◌, ◌^◌, ◌≡◌, refl, ◌∙◌, List, ◌∷◌, if◌then◌else◌, arith, count, Option, some, length,
  not_eq, dec_lt, ltb, lt→ltb, le→not_ltb,
}
use remotus_hardware.Rtx.Block.{Store, os_rdy, os_dly, set_state}
use remotus_hardware.Rtx.Block.State
use remotus_hardware.Rtx.PrioList.Laws.{IsChain, IsChain-Same, head_differs, SameDelays}
use remotus_hardware.Rtx.PrioList.Order.{IsOrdered, IsOrdered-same, get_first_lem}
use remotus_hardware.Rtx.DelayList.Links.{tasks, IsDelay, IsDelay-same, insert_time, Keeps}
use remotus_hardware.Rtx.DelayList.Put.{put_dly_lem}
use remotus_hardware.Rtx.Kernel.{Kernel}
use remotus_hardware.Rtx.Task.{switch_req, switch_first, block}
use remotus_hardware.Rtx.Task.Ready.{IsReady}
use remotus_hardware.Rtx.Task.Schedule.{IsReady-state, state-lnk, second_differs, state_prio-same}

-- The call returns with a new store, the task `t` runs from now on, the tasks `ts` stay ready in
-- order, and the tasks `ds` are on the list of delays with their times. Nothing else of the kernel
-- changes, no link p_lnk outside the ready list, and no priority.
abbrev pub RunsFirst : Kernel → Option Kernel → ℕ → List ℕ → List (ℕ × ℕ) → Type 0
RunsFirst k result t ts ds =
    (s : Store) × (result ≡ some (record k { new_tsk = t; blocks = s }))
    × IsReady s t ts
    × IsDelay s os_dly 0 ds
    × ((x : ℕ) → count x (os_rdy ∷ t ∷ ts) ≡ 0 → (s x).p_lnk ≡ (k.blocks x).p_lnk)
    × ((x : ℕ) → (s x).prio ≡ (k.blocks x).prio)

pub set_state-delays : (s : Store) (p v : ℕ) → SameDelays s (set_state s p v)
set_state-delays s p v x = (grind arith, grind arith, grind arith)

set_state-Keeps : (s : Store) (p v : ℕ) → Keeps s (set_state s p v)
set_state-Keeps s p v x = (grind arith, grind arith)

module _ (t : ℕ) (ts : List ℕ) (ds : List (ℕ × ℕ))
    (once : (x : ℕ) → count x (os_rdy ∷ t ∷ ts) ≤ 1) where
  -- `rt_dispatch (NULL)` in rt_block
  switch_first_lem :
      (k : Kernel)
      → IsChain k.blocks os_rdy (t ∷ ts)
      → IsOrdered k.blocks (t ∷ ts)
      → IsDelay k.blocks os_dly 0 ds
      → RunsFirst k (switch_first k) t ts ds
  unfolding switch_first switch_req
  switch_first_lem k c (top, ordered) d =
      let (link, above, rest) = c in
      let (s', ran, chain, cut, prios, links, delays) = get_first_lem k.blocks os_rdy t ts once c in
      let s2 = set_state s' t State.running in
      (
        s2,
        rw (ran, not_eq t 0 (omega arith)) refl,
        IsReady-state s' t State.running t ts (record {
          chain = chain;
          once = once;
          ordered = IsOrdered-same k.blocks s' ts prios ordered;
          highest = λ x l. rw (prios x, prios t) (top x l);
          some_task = above;
        }),
        IsDelay-same s' s2 os_dly 0 ds (set_state-delays s' t State.running)
            (IsDelay-same k.blocks s' os_dly 0 ds delays d),
        (λ x h.
            state-lnk s' t State.running x
            ∙ links x (head_differs x os_rdy (t ∷ ts) h) (second_differs x os_rdy t ts h)),
        (λ x. state_prio-same k.blocks s' t State.running x (prios x)),
      )

  -- the same with another store, which has the same ready list
  switch_after :
      (k : Kernel) (s : Store) (p v : ℕ)
      → Keeps k.blocks s
      → IsChain k.blocks os_rdy (t ∷ ts)
      → IsOrdered k.blocks (t ∷ ts)
      → IsDelay s os_dly 0 ds
      → RunsFirst k (switch_first (record k { blocks = set_state s p v })) t ts ds
  switch_after k s p v keeps c ordered d =
      let k1 : Kernel = record k { blocks = set_state s p v } in
      let same = set_state-Keeps s p v in
      let (s2, ran, r, delays, links, prios) =
        switch_first_lem k1
          (IsChain-Same k.blocks k1.blocks os_rdy (t ∷ ts) (λ x l. (same x).0 ∙ (keeps x).0) c)
          (IsOrdered-same k.blocks k1.blocks (t ∷ ts) (λ x. (same x).1 ∙ (keeps x).1) ordered)
          (IsDelay-same s k1.blocks os_dly 0 ds (set_state-delays s p v) d) in
      (
        s2,
        ran,
        r,
        delays,
        (λ x h. links x h ∙ (same x).0 ∙ (keeps x).0),
        (λ x. prios x ∙ (same x).1 ∙ (keeps x).1),
      )

-- rt_block with a timeout of 1 to 0xffff, for a running task that is on no list of delays, with
-- more rounds than that list has tasks: the first ready task runs, which is one of the highest
-- priority, the others stay ready in order, and the task is on the list of delays with its timeout,
-- unless it is 0xffff, which waits for ever; all other delays keep their times.
pub block_lem :
    (fuel : ℕ) (k : Kernel) (timeout block_state t : ℕ) (ts : List ℕ) (ds : List (ℕ × ℕ))
    → length ds < fuel
    → 0 < k.run
    → 0 < timeout
    → timeout < 2 ^ 16
    → ((x : ℕ) → count x (os_rdy ∷ t ∷ ts) ≤ 1)
    → IsChain k.blocks os_rdy (t ∷ ts)
    → IsOrdered k.blocks (t ∷ ts)
    → count k.run (os_dly ∷ tasks ds) ≡ 0
    → ((x : ℕ) → count x (os_dly ∷ tasks ds) ≤ 1)
    → IsDelay k.blocks os_dly 0 ds
    → RunsFirst k
        (block fuel k timeout block_state)
        t
        ts
        (if ltb timeout 0xffff then insert_time k.run timeout ds else ds)
unfolding block
block_lem fuel k timeout block_state t ts ds enough some_run timed small once c ordered fresh once_d
      d =
    rw (not_eq timeout 0 (omega arith)) (elim (dec_lt timeout 0xffff) [
      | yes limited ↦
          let (s', ran, listed, same, back, keeps) =
            put_dly_lem fuel k.blocks k.run timeout ds enough some_run timed small fresh once_d d in
          rw (lt→ltb timeout 0xffff limited, ran)
            (switch_after t ts (insert_time k.run timeout ds) once k s' k.run block_state
              (λ x. ((keeps x).0, (keeps x).1)) c ordered listed)
      | no forever ↦
          rw (le→not_ltb timeout 0xffff (omega arith))
            (switch_after t ts ds once k k.blocks k.run block_state (λ x. (refl, refl)) c ordered d)
    ])
