-- ===== src/Rtx/Waiting/Laws.antt =====
-- Going on the list of an object, and taking its first task off.
use remotus_hardware.Base.{
  ℕ, ◌≤◌, ◌<◌, ◌≡◌, refl, sym, ◌∙◌, List, [], ◌∷◌, arith, count, Option, some, length, not_eq,
}
use remotus_hardware.Rtx.Block.{Store}
use remotus_hardware.Rtx.PrioList.Laws.{
  IsChain, IsChain-Same, Inserted, put_prio-Inserted, head_differs,
}
use remotus_hardware.Rtx.PrioList.Order.{get_first_lem}
use remotus_hardware.Rtx.DelayList.{rmv_dly}
use remotus_hardware.Rtx.DelayList.Remove.{rmv_dly-keeps}
use remotus_hardware.Rtx.Kernel.{Kernel}
use remotus_hardware.Rtx.Waiting.{take_first, wait_at}

-- The first task `w` of the list on `p` is off it, with its result; the others stay in their order, no
-- priority changes and no link p_lnk but those of the head and of `w`.
abbrev pub TakenFirst :
    Option (ℕ × Kernel) → Kernel → (Kernel → ℕ → Kernel) → ℕ → ℕ → List ℕ → Type 0
TakenFirst run k result p w ws =
    (s : Store) × (run ≡ some (w, record (result k w) { blocks = s }))
    × IsChain s p ws
    × ((x : ℕ) → (s x).prio ≡ (k.blocks x).prio)
    × ((x : ℕ) → ¬ (x ≡ p) → ¬ (x ≡ w) → (s x).p_lnk ≡ (k.blocks x).p_lnk)

pub take_first_lem :
    (k : Kernel) (result : Kernel → ℕ → Kernel) (p w : ℕ) (ws : List ℕ)
    → ((k1 : Kernel) (s : Store) (t : ℕ)
        → result (record k1 { blocks = s }) t ≡ record (result k1 t) { blocks = s })
    → ((x : ℕ) → count x (p ∷ w ∷ ws) ≤ 1)
    → IsChain k.blocks p (w ∷ ws)
    → TakenFirst (take_first k p result) k result p w ws
unfolding take_first
take_first_lem k result p w ws same once c =
    let (s', ran, chain, cut, prios, links, delays) = get_first_lem k.blocks p w ws once c in
    (
      rmv_dly s' w,
      rw (ran, same k s' w) refl,
      IsChain-Same s' (rmv_dly s' w) p ws (λ x k. (rmv_dly-keeps s' w x).0) chain,
      (λ x. (rmv_dly-keeps s' w x).1 ∙ prios x),
      (λ x h j. (rmv_dly-keeps s' w x).0 ∙ links x h j),
    )

wait_first :
    (s : Store) (p run : ℕ)
    → ¬ (p ≡ run)
    → 0 < run
    → (fuel : ℕ) → (s p).p_lnk ≡ 0
    → Inserted (wait_at fuel s p run) s run p []
unfolding wait_at
wait_first s p run other above fuel none_left = rw none_left (
  _,
  refl,
  (grind arith, above, grind arith),
  (λ x. grind arith),
  (λ x h k. grind arith),
  (λ x. (grind arith, grind arith, grind arith)),
)

pub wait_at_lem :
    (fuel : ℕ) (s : Store) (p run : ℕ) (ws : List ℕ)
    → length ws < fuel
    → 0 < run
    → count run (p ∷ ws) ≡ 0
    → ((x : ℕ) → count x (p ∷ ws) ≤ 1)
    → IsChain s p ws
    → Inserted (wait_at fuel s p run) s run p ws
unfolding wait_at
wait_at_lem fuel s p run [] enough above fresh once c =
    wait_first s p run (λ e. head_differs run p [] fresh (sym e)) above fuel c
wait_at_lem fuel s p run (w ∷ ws) enough above fresh once (link, some_w, c) =
    rw (link, not_eq w 0 (omega arith))
      (put_prio-Inserted fuel s p run (w ∷ ws) enough above fresh once (link, some_w, c))
