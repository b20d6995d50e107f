-- ===== src/Rtx/Mutex/Laws.antt =====
-- Nested calls of the owner of a mutex, and the priority that its owner inherits.
use mathlib.Core.Path.{fun_ext}
use remotus_hardware.Base.{
  ℕ, ℕ_discrete, ◌-◌, ◌<◌, ◌≡◌, refl, ap, ◌∙◌, arith, some, lt→ltb, not_eq, ==-same,
}
use remotus_hardware.Rtx.Block.{set_prio, add16}
use remotus_hardware.Rtx.Block.State
use remotus_hardware.Rtx.Block.Rc
use remotus_hardware.Rtx.PrioList.Order.{resort_prio-stays}
use remotus_hardware.Rtx.Kernel.{Kernel, Mucb, put}
use remotus_hardware.Rtx.Mutex.{mut_wait, mut_release, raise_owner, set_mutex}

-- A mutex that is written twice has the second value, and one that gets its own value is as it was.
put_own : (f : ℕ → Mucb) (a : ℕ) (v w : Mucb) → w ≡ f a → put (put f a v) a w ≡ f
put_own f a v w own = fun_ext (λ x. elim (ℕ_discrete x a) [
  | yes here ↦ rw (here, ==-same a) own
  | no there ↦ rw (not_eq x a there) refl
])

release_nested :
    (fuel : ℕ) (k : Kernel) (mutex : ℕ) (m : Mucb)
    → k.mutexes mutex ≡ m
    → 1 < m.level
    → m.owner ≡ k.run
    → mut_release fuel k mutex ≡ some (Rc.ok, set_mutex k mutex (record m { level = m.level - 1 }))
unfolding mut_release
release_nested fuel k mutex m is nested own =
    rw
      (is, own, ==-same k.run, not_eq m.level 0 (omega arith), not_eq (m.level - 1) 0 (omega arith))
      refl

-- The owner of a mutex that calls rt_mut_wait, whatever the timeout, and then rt_mut_release gets
-- OS_R_OK both times, and the kernel is as it was, when the nesting level is between 1 and 0xfffe.
pub mut_wait_roundtrip :
    (fuel : ℕ) (k : Kernel) (mutex timeout : ℕ)
    → 0 < (k.mutexes mutex).level
    → (k.mutexes mutex).level < 0xffff
    → (k.mutexes mutex).owner ≡ k.run
    → (k1 : Kernel) × (mut_wait fuel k mutex timeout ≡ some (Rc.ok, k1))
      × (mut_release fuel k1 mutex ≡ some (Rc.ok, k))
unfolding mut_wait mut_release
mut_wait_roundtrip fuel k mutex timeout held small own =
    let m = k.mutexes mutex in
    let deeper : Mucb = record m { level = add16 m.level 1 } in
    let k1 : Kernel = record k { mutexes = put k.mutexes mutex deeper } in
    (
      k1,
      rw (not_eq m.level 0 (omega arith), own, ==-same k.run) refl,
      release_nested fuel k1 mutex deeper (rw (==-same mutex) refl) (omega arith) own
          ∙ ap (λ f. some (Rc.ok, record k { mutexes = f }))
              (put_own k.mutexes mutex deeper _ (ap (λ l. record m { level = l }) (omega arith))),
    )

-- rt_mut_wait compares the priority of the running task with the one the owner had when it took the
-- mutex, and not with the one it has now: an owner that waits for a delay and inherited a higher
-- priority than the running task's loses it.
pub raise_owner_lowers :
    (fuel : ℕ) (k : Kernel) (mutex : ℕ)
    → (k.mutexes mutex).prio < (k.blocks k.run).prio
    → (k.blocks k.run).prio < (k.blocks ((k.mutexes mutex).owner)).prio
    → (k.blocks ((k.mutexes mutex).owner)).p_rlnk ≡ 0
    → (k.blocks ((k.mutexes mutex).owner)).state ≡ State.wait_dly
    → (k1 : Kernel) × (raise_owner fuel k mutex ≡ some k1)
      × ((k1.blocks ((k.mutexes mutex).owner)).prio < (k.blocks ((k.mutexes mutex).owner)).prio)
unfolding raise_owner
raise_owner_lowers fuel k mutex base lower no_list delayed =
    let owner = (k.mutexes mutex).owner in
    let prio = (k.blocks k.run).prio in
    let s = set_prio k.blocks owner prio in
    let k1 : Kernel = record k { blocks = s } in
    (
      k1,
      rw
          (
            lt→ltb (k.mutexes mutex).prio prio base,
            resort_prio-stays fuel s owner State.wait_dly (grind arith) (grind arith) (omega arith),
          )
          refl,
      rw (==-same owner) lower,
    )
