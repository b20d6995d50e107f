-- ===== src/Sensors/Dht/Laws.antt =====
-- What a reading can be, whatever the pin does.
use native.Mathlib.Nat.{add-zero}
use remotus_hardware.Base.{
  ℕ, zero, suc, ◌+◌, ◌*◌, ◌/◌, ◌%◌, ◌^◌, ◌≤◌, ◌<◌, ◌≡◌, refl, sym, ap, ◌∙◌, Bool-cases, inl, inr,
  false, not, ◌&&◌, Option, none, some, List, [], ◌∷◌, ◌++◌, ◌>>=◌, ltb, ◌==◌, if◌then◌else◌,
  length, replicate, set, get_elem?, get_elem?-in, length-set, ==_iff, ℕ_discrete, arith,
}
use remotus_hardware.Sensors.Dht.{
  Error, error_none, bus_busy, error_not_present, error_data_timeout, error_checksum,
  error_no_patience, Pin, Dht, dht_data_bit_count, byte_from, decode_bytes, wait_while, while_high,
  read_bits, start_signal, sample, accept, evaluate, read_data,
}

even_pow : (n : ℕ) → 2 ^ suc n % 2 ≡ 0
even_pow n = omega arith

add_suc_shift : (at left : ℕ) → at + 1 + left ≡ at + suc left
add_suc_shift at left = omega arith

-- A byte whose last bit time is 0 is even.
byte_from-even :
    (left at : ℕ) (bit_times : List ℕ)
    → at + suc left ≤ length bit_times
    → (b : ℕ) × (byte_from (suc left) at bit_times ≡ some b)
      × (get_elem? bit_times (at + left) ≡ some 0 → b % 2 ≡ 0)
unfolding byte_from
byte_from-even zero at bit_times h =
    let (t, e) = get_elem?-in bit_times at (omega arith) in
    (
      (if ltb 0 t then 2 ^ 0 else 0) + 0,
      rw e refl,
      λ last. ground (arith, sym e ∙ ap (get_elem? bit_times) (sym (add-zero at)) ∙ last),
    )
byte_from-even (suc left) at bit_times h =
    let (t, e) = get_elem?-in bit_times at (omega arith) in
    let (b, run, even) = byte_from-even left (at + 1) bit_times (omega arith) in
    (
      (if ltb 0 t then 2 ^ suc left else 0) + b,
      rw (e, run) refl,
      λ last.
          ground
            (arith, even_pow left, even (ap (get_elem? bit_times) (add_suc_shift at left) ∙ last)),
    )

get_elem?-set_other : (xs : List ℕ) (i j v : ℕ) → i < j → get_elem? (set xs i v) j ≡ get_elem? xs j
get_elem?-set_other [] i j v h = refl
get_elem?-set_other (x ∷ xs) zero zero v h = absurd (omega arith)
get_elem?-set_other (x ∷ xs) zero (suc j) v h = refl
get_elem?-set_other (x ∷ xs) (suc i) zero v h = absurd (omega arith)
get_elem?-set_other (x ∷ xs) (suc i) (suc j) v h = get_elem?-set_other xs i j v (omega arith)

module _ {W : Type 0} (pin : Pin W) where
  -- The samples go to the first members only.
  read_bits-last :
      (left k : ℕ) (bit_times : List ℕ) (w : W)
      → k + left ≤ 40
      → (get_elem? (read_bits pin left k bit_times w).1 40 ≡ get_elem? bit_times 40)
        × (length (read_bits pin left k bit_times w).1 ≡ length bit_times)
  unfolding read_bits
  read_bits-last zero k bit_times w h = (refl, refl)
  read_bits-last (suc left) k bit_times w h =
      let (rose, w1) = wait_while pin 76 0 1 w in
      let (v, w2) = pin.read (pin.wait_us 40 w1) in
      let (last, size) =
        read_bits-last left (k + 1) (set bit_times k v) (while_high pin 100 w2) (omega arith) in
      elim (Bool-cases (wait_while pin 76 0 1 w).0) [
        | inl y ↦ rw y (
          last ∙ get_elem?-set_other bit_times k 40 v (omega arith),
          size ∙ length-set bit_times k v,
        )
        | inr n ↦ rw n (refl, refl)
      ]

-- Five bytes come out, and the last of them is even if the last bit time is 0.
decode_bytes-even :
    (bit_times : List ℕ)
    → length bit_times ≡ 41
    → get_elem? bit_times 40 ≡ some 0
    → (b0 b1 b2 b3 b4 : ℕ) × (decode_bytes 5 0 bit_times ≡ some (b0 ∷ b1 ∷ b2 ∷ b3 ∷ b4 ∷ []))
      × (b4 % 2 ≡ 0)
unfolding decode_bytes
decode_bytes-even bit_times size last =
    let (b0, e0, _) = byte_from-even 7 1 bit_times (omega arith) in
    let (b1, e1, _) = byte_from-even 7 9 bit_times (omega arith) in
    let (b2, e2, _) = byte_from-even 7 17 bit_times (omega arith) in
    let (b3, e3, _) = byte_from-even 7 25 bit_times (omega arith) in
    let (b4, e4, even) = byte_from-even 7 33 bit_times (omega arith) in
    (b0, b1, b2, b3, b4, rw (e0, e1, e2, e3, e4) refl, even last)

-- The sum of the first four bytes is even.
abbrev pub EvenSum : List ℕ → Type 0
EvenSum (b0 ∷ b1 ∷ b2 ∷ b3 ∷ _) = (b0 + b1 + b2 + b3) % 2 ≡ 0
EvenSum _ = ⊥

abbrev Accepts : Error → List ℕ → Type 0
Accepts error_none bytes = EvenSum bytes
Accepts bus_busy bytes = Unit {0}
Accepts error_not_present bytes = Unit {0}
Accepts error_data_timeout bytes = Unit {0}
Accepts error_checksum bytes = Unit {0}
Accepts error_no_patience bytes = Unit {0}

-- A reading that ends without a fault, and if it is accepted, with an even sum.
abbrev pub IsReading : {W : Type 0} → Option ((Error × Dht) × W) → Type 0
IsReading none = ⊥
IsReading (some ((err, d), w)) = Accepts err d.dht_data

accept-IsReading :
    {W : Type 0} (now b0 b1 b2 b3 b4 : ℕ) (d : Dht) (w : W)
    → b4 % 2 ≡ 0
    → IsReading (
        accept now (b0 ∷ b1 ∷ b2 ∷ b3 ∷ b4 ∷ []) d >>= λ r.
        (let after : (Error × Dht) × W = (r, w) in some after))
unfolding accept
accept-IsReading now b0 b1 b2 b3 b4 d w even = elim (Bool-cases (b4 == (b0 + b1 + b2 + b3) % 256)) [
  | inl y ↦ rw y (let e = (==_iff b4 ((b0 + b1 + b2 + b3) % 256)).0 y in omega arith)
  | inr n ↦ rw n tt
]

evaluate-IsReading :
    {W : Type 0} (now : ℕ) (err : Error) (bit_times : List ℕ) (d : Dht) (w : W)
    → length bit_times ≡ 41
    → get_elem? bit_times 40 ≡ some 0
    → IsReading (
        evaluate now (err, bit_times) d >>= λ r.
        (let after : (Error × Dht) × W = (r, w) in some after))
unfolding evaluate
evaluate-IsReading now error_none bit_times d w size last =
    let (b0, b1, b2, b3, b4, run, even) = decode_bytes-even bit_times size last in
    rw run (accept-IsReading now b0 b1 b2 b3 b4 d w even)
evaluate-IsReading now bus_busy bit_times d w size last = tt
evaluate-IsReading now error_not_present bit_times d w size last = tt
evaluate-IsReading now error_data_timeout bit_times d w size last = tt
evaluate-IsReading now error_checksum bit_times d w size last = tt
evaluate-IsReading now error_no_patience bit_times d w size last = tt

sample-last :
    {W : Type 0} (pin : Pin W) (w : W)
    → (get_elem? (sample pin w).0.1 40 ≡ some 0) × (length (sample pin w).0.1 ≡ 41)
unfolding sample
sample-last pin w =
    let w1 = (wait_while pin 126 0 2 w).1 in
    let w2 = (wait_while pin 41 1 1 (start_signal pin w1)).1 in
    read_bits-last pin 40 0 (replicate dht_data_bit_count 0) (pin.wait_us 80 w2) (omega arith)

-- readData ends without a fault whatever the pin does, and a reading that it accepts has four bytes
-- with an even sum.
pub read_data-IsReading :
    {W : Type 0} (pin : Pin W) (d : Dht) (w : W) → IsReading (read_data pin d w)
unfolding read_data
read_data-IsReading pin d w =
    let now = pin.time w in
    let d' : Dht =
      if d.first_time then record d { first_time = false; last_read_time = now } else d in
    let s = sample pin w in
    let (last, size) = sample-last pin w in
    elim (Bool-cases (not d.first_time && ltb now (d.last_read_time + 2))) [
      | inl y ↦ rw y tt
      | inr n ↦ rw n (evaluate-IsReading now s.0.0 s.0.1 d' s.1 size last)
    ]

-- The bits of a byte, the highest first.
abbrev pub bits : ℕ → List ℕ
bits b =
    b / 128 % 2
    ∷ b / 64 % 2
    ∷ b / 32 % 2
    ∷ b / 16 % 2
    ∷ b / 8 % 2
    ∷ b / 4 % 2
    ∷ b / 2 % 2
    ∷ b % 2
    ∷ []

suc_at : (at : ℕ) → suc at + 1 ≡ suc (at + 1)
suc_at at = omega arith

bit_value : (x p : ℕ) → (if ltb 0 (x % 2) then p else 0) ≡ x % 2 * p
bit_value x p = elim (ℕ_discrete (x % 2) 0) [
  | yes e ↦ rw e (omega arith)
  | no e ↦ let one : x % 2 ≡ 1 = omega arith in rw one (omega arith)
]

byte_from-shift : (n at x : ℕ) (xs : List ℕ) → byte_from n (suc at) (x ∷ xs) ≡ byte_from n at xs
unfolding byte_from
byte_from-shift zero at x xs = refl
byte_from-shift (suc n) at x xs =
    rw (ap (λ k. byte_from n k (x ∷ xs)) (suc_at at) ∙ byte_from-shift n (at + 1) x xs) refl

byte_from-bits :
    (before : List ℕ) (b : ℕ) (rest : List ℕ)
    → b < 256
    → byte_from 8 (length before) (before ++ (bits b ++ rest)) ≡ some b
unfolding byte_from
byte_from-bits [] b rest h =
    rw
      (
        bit_value (b / 128) 128,
        bit_value (b / 64) 64,
        bit_value (b / 32) 32,
        bit_value (b / 16) 16,
        bit_value (b / 8) 8,
        bit_value (b / 4) 4,
        bit_value (b / 2) 2,
        bit_value b 1,
      )
      (ap some (omega arith))
byte_from-bits (x ∷ before) b rest h =
    byte_from-shift 8 (length before) x (before ++ (bits b ++ rest))
    ∙ byte_from-bits before b rest h

-- What the loop over the bytes makes of the 40 bit times behind the first one, where they are the
-- bits of five bytes, the highest first: these five bytes, whatever the first bit time is.
pub decode_bytes-bits :
    (first b0 b1 b2 b3 b4 : ℕ)
    → b0 < 256
    → b1 < 256
    → b2 < 256
    → b3 < 256
    → b4 < 256
    → decode_bytes 5 0 (first ∷ (bits b0 ++ (bits b1 ++ (bits b2 ++ (bits b3 ++ bits b4)))))
      ≡ some (b0 ∷ b1 ∷ b2 ∷ b3 ∷ b4 ∷ [])
unfolding decode_bytes
decode_bytes-bits first b0 b1 b2 b3 b4 h0 h1 h2 h3 h4 =
    rw
      (
        byte_from-bits (first ∷ []) b0 (bits b1 ++ (bits b2 ++ (bits b3 ++ bits b4))) h0,
        byte_from-bits (first ∷ bits b0) b1 (bits b2 ++ (bits b3 ++ bits b4)) h1,
        byte_from-bits (first ∷ (bits b0 ++ bits b1)) b2 (bits b3 ++ bits b4) h2,
        byte_from-bits (first ∷ (bits b0 ++ (bits b1 ++ bits b2))) b3 (bits b4) h3,
        byte_from-bits (first ∷ (bits b0 ++ (bits b1 ++ (bits b2 ++ bits b3)))) b4 [] h4,
      )
      refl
