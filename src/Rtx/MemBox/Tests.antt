-- ===== src/Rtx/MemBox/Tests.antt =====
-- A pool of two blocks of eight bytes on which the theorems about pools are run.
use remotus_hardware.Base.{inl, ◌≡◌, refl, some, [], ◌∷◌, arith}
use remotus_hardware.Rtx.MemBox.{Memory, poke, init_box, alloc_box, free_box}
use remotus_hardware.Rtx.MemBox.Laws.{Holds, free_box_outside}
use remotus_hardware.Rtx.MemBox.Runs.{Reaches, Keeps, Reaches-Keeps}
use remotus_hardware.Rtx.MemBox.Init.{IsNew, init_box_lem}

abbrev zeros : Memory
zeros = λ x. 0

abbrev structure : Memory
structure = poke (poke (poke zeros 256 268) 260 284) 264 8

abbrev pool : Memory
pool = poke (poke structure 268 276) 276 0

-- the pool with its first block in use
abbrev half : Memory
half = poke pool 256 276

pool-Holds : Holds pool 256 (268 ∷ 276 ∷ []) []
pool-Holds = record {
  chain = (refl, omega arith, (refl, omega arith, refl));
  once = λ x. grind arith;
  inside = λ x k. grind arith;
  apart = λ x y k l lt. grind arith;
}

half-Holds : Holds half 256 (276 ∷ []) (268 ∷ [])
half-Holds = record {
  chain = (refl, omega arith, refl);
  once = λ x. grind arith;
  inside = λ x k. grind arith;
  apart = λ x y k l lt. grind arith;
}

init_box_lem_example :
    (mem' : Memory) × (init_box zeros 256 28 6 ≡ some (0, mem')) × IsNew mem' 256 28 8 12
init_box_lem_example =
    init_box_lem zeros 256 28 (omega arith) (omega arith) 6 (omega arith) (omega arith)
      (omega arith)

free_box_outside_example : free_box pool 256 284 ≡ (1, pool)
free_box_outside_example = free_box_outside pool 256 284 refl

-- A task takes a block and writes a word into it.
two_steps : Reaches 256 pool [] (poke half 272 9) (268 ∷ [])
unfolding alloc_box
two_steps =
    Reaches.wrote 268 272 9 (Reaches.given 267 Reaches.here (inl refl)) (omega arith) (omega arith)
      (omega arith)

Reaches-Keeps_example : Keeps (poke half 272 9) 256 (268 ∷ []) (268 ∷ 276 ∷ []) []
Reaches-Keeps_example = Reaches-Keeps 256 (268 ∷ 276 ∷ []) two_steps pool-Holds
