-- ===== src/Rtx/PostQueue/Laws.antt =====
-- The queue of posted requests keeps their order, up to its size.
use remotus_hardware.Base.{
  ℕ, ◌+◌, ◌≤◌, ◌<◌, ◌%◌, ◌≡◌, refl, sym, ◌∙◌, Option, none, some, List, [], ◌∷◌, ◌++◌,
  if◌then◌else◌, length, get_elem?, arith, ◌==◌, not_eq, ==-same, dec_lt, ltb, lt→ltb, le→not_ltb,
}
use remotus_hardware.Rtx.PostQueue.{Psq, put_entry, inc_qi, psq_enq}
use remotus_hardware.Rtx.Mailbox.Ring.{
  place, place_in, place_apart, get_elem?-front, get_elem?-back, length-back,
}

-- The queue holds the requests `xs`, the oldest first.
pub record IsQueue (p : Psq) (xs : List (ℕ × ℕ)) : Type 0 where
  pub count_is : p.count ≡ length xs
  pub fits : length xs ≤ p.size
  pub small : p.size < 256
  pub last_in : p.last < p.size
  pub first_is : p.first ≡ place p.last p.size (length xs)
  pub held : (i : ℕ) → i < length xs → get_elem? xs i ≡ some (p.q (place p.last p.size i))

held_after :
    (p : Psq) (xs : List (ℕ × ℕ)) (e : ℕ × ℕ)
    → IsQueue p xs
    → length xs < p.size
    → (i : ℕ) → i < length xs + 1
    → get_elem? (xs ++ (e ∷ [])) i ≡ some (put_entry p.q p.first e (place p.last p.size i))
held_after p xs e r room i h = elim (dec_lt i (length xs)) [
  | yes before ↦
      let other = λ (same : place p.last p.size i ≡ p.first).
        place_apart p.last p.size r.last_in i (length xs) before room (sym r.first_is ∙ sym same) in
      get_elem?-front xs e i before
      ∙ r.held i before
      ∙ rw (not_eq (place p.last p.size i) p.first other) refl
  | no here ↦
      let last : i ≡ length xs = omega arith in
      rw (last, sym r.first_is, ==-same p.first) (get_elem?-back xs e)
]

-- Where the next request goes.
first_after :
    (last size n : ℕ)
    → last < size
    → n < size
    → size < 256
    → (if place last size n + 1 == size then 0 else (place last size n + 1) % 256)
      ≡ place last size (n + 1)
first_after last size n h k small = ground arith

enq_room :
    (p : Psq) (entry arg : ℕ) (xs : List (ℕ × ℕ))
    → IsQueue p xs
    → length xs < p.size
    → (p1 : Psq) × (psq_enq p entry arg ≡ some p1) × IsQueue p1 (xs ++ ((entry, arg) ∷ []))
unfolding psq_enq inc_qi
enq_room p entry arg xs r room =
    let inside = place_in p.last p.size r.last_in (length xs) r.fits in
    let p1 : Psq = record p {
      first = (if p.first + 1 == p.size then 0 else (p.first + 1) % 256);
      count = (p.count + 1) % 256;
      q = put_entry p.q p.first (entry, arg);
    } in
    (
      p1,
      rw
          (
            lt→ltb p.count p.size (omega (arith, r.count_is)),
            lt→ltb p.first p.size (rw r.first_is inside),
          )
          refl,
      record {
        count_is = omega (arith, r.count_is, r.small, length-back xs (entry, arg));
        fits = omega (arith, length-back xs (entry, arg));
        small = r.small;
        last_in = r.last_in;
        first_is =
            rw (r.first_is, length-back xs (entry, arg))
              (first_after p.last p.size (length xs) r.last_in room r.small);
        held = λ i h.
            held_after p xs (entry, arg) r room i (omega (arith, h, length-back xs (entry, arg)));
      },
    )

enq_full : (p : Psq) (entry arg : ℕ) → p.size ≤ p.count → psq_enq p entry arg ≡ none
unfolding psq_enq inc_qi
enq_full p entry arg full =
    rw (le→not_ltb p.count p.size full) (rw (le→not_ltb p.count p.size full) refl)

-- A queue and a bounded list of requests to which one was added: both have it, or both refuse it.
abbrev pub Agree : Option Psq → Option (List (ℕ × ℕ)) → Type 0
Agree (some p) (some xs) = IsQueue p xs
Agree none none = Unit {0}
Agree (some p) none = ⊥
Agree none (some xs) = ⊥

-- rt_psq_enq on a queue of at most 255 entries: with room, the call returns and the request is behind
-- those that are there, which stay in their order; on a full queue, and on no other, the call ends in
-- os_error, which does not return.
pub psq_enq_lem :
    (p : Psq) (entry arg : ℕ) (xs : List (ℕ × ℕ))
    → IsQueue p xs
    → Agree
        (psq_enq p entry arg)
        (if ltb (length xs) p.size then some (xs ++ ((entry, arg) ∷ [])) else none)
psq_enq_lem p entry arg xs r = elim (dec_lt (length xs) p.size) [
  | yes room ↦
      let (p1, ran, r1) = enq_room p entry arg xs r room in
      rw (lt→ltb (length xs) p.size room, ran) r1
  | no full ↦
      rw
        (
          le→not_ltb (length xs) p.size (omega arith),
          enq_full p entry arg (omega (arith, r.count_is)),
        )
        tt
]
