-- ===== src/Rtx/PostQueue/Tests.antt =====
-- A queue of three places with two requests, around the end of the array.
use remotus_hardware.Base.{ℕ, zero, suc, ◌<◌, ◌≡◌, refl, some, [], ◌∷◌, get_elem?, arith}
use remotus_hardware.Rtx.PostQueue.{Psq, psq_enq}
use remotus_hardware.Rtx.PostQueue.Laws.{IsQueue, Agree, psq_enq_lem}
use remotus_hardware.Rtx.Mailbox.Ring.{place}

abbrev queue : Psq
queue = record { first = 1; last = 2; count = 2; size = 3; q = λ i. (i, 0) }

queue-held : (i : ℕ) → i < 2 → get_elem? ((2, 0) ∷ (0, 0) ∷ []) i ≡ some (queue.q (place 2 3 i))
queue-held zero h = refl
queue-held (suc zero) h = refl
queue-held (suc (suc i)) h = absurd (omega arith)

queue-IsQueue : IsQueue queue ((2, 0) ∷ (0, 0) ∷ [])
queue-IsQueue = record {
  count_is = refl;
  fits = omega arith;
  small = omega arith;
  last_in = omega arith;
  first_is = refl;
  held = queue-held;
}

psq_enq_lem_example : Agree (psq_enq queue 7 9) (some ((2, 0) ∷ (0, 0) ∷ (7, 9) ∷ []))
psq_enq_lem_example = psq_enq_lem queue 7 9 ((2, 0) ∷ (0, 0) ∷ []) queue-IsQueue
