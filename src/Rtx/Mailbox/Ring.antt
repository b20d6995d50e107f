-- ===== src/Rtx/Mailbox/Ring.antt =====
-- The array of a mailbox as a queue of messages.
use remotus_hardware.Base.{
  ℕ, zero, suc, ◌+◌, ◌-◌, ◌≤◌, ◌<◌, ◌^◌, ◌≡◌, refl, ap, some, List, [], ◌∷◌, ◌++◌, if◌then◌else◌,
  length, get_elem?, set, arith, ltb,
}
use remotus_hardware.Rtx.Kernel.{Mcb}
use remotus_hardware.Rtx.Mailbox.{next_at}

-- The index of a message: `i` places behind `last`, around the end of the array.
abbrev pub place : ℕ → ℕ → ℕ → ℕ
place last size i = if ltb (last + i) size then last + i else last + i - size

-- The mailbox holds the messages `xs`, the oldest first.
pub record IsRing (m : Mcb) (xs : List ℕ) : Type 0 where
  pub count_is : m.count ≡ length xs
  pub fits : length xs ≤ m.size
  pub small : m.size < 2 ^ 16
  pub array : length m.msg ≡ m.size
  pub last_in : m.last < m.size
  pub first_is : m.first ≡ place m.last m.size (length xs)
  pub held : (i : ℕ) → i < length xs → get_elem? m.msg (place m.last m.size i) ≡ get_elem? xs i

pub get_elem?-front {ℓ} :
    {A : Type ℓ}
    → (xs : List A) (v : A) (i : ℕ) → i < length xs
    → get_elem? (xs ++ (v ∷ [])) i ≡ get_elem? xs i
get_elem?-front [] v i h = absurd (omega arith)
get_elem?-front (x ∷ xs) v zero h = refl
get_elem?-front (x ∷ xs) v (suc i) h = get_elem?-front xs v i (omega arith)

pub get_elem?-back {ℓ} :
    {A : Type ℓ} → (xs : List A) (v : A) → get_elem? (xs ++ (v ∷ [])) (length xs) ≡ some v
get_elem?-back [] v = refl
get_elem?-back (x ∷ xs) v = get_elem?-back xs v

pub length-back {ℓ} : {A : Type ℓ} → (xs : List A) (v : A) → length (xs ++ (v ∷ [])) ≡ length xs + 1
length-back [] v = refl
length-back (x ∷ xs) v = omega (arith, length-back xs v)

pub get_elem?-set_same : (xs : List ℕ) (i v : ℕ) → i < length xs → get_elem? (set xs i v) i ≡ some v
get_elem?-set_same [] i v h = absurd (omega arith)
get_elem?-set_same (x ∷ xs) zero v h = refl
get_elem?-set_same (x ∷ xs) (suc i) v h = get_elem?-set_same xs i v (omega arith)

pub get_elem?-set_other :
    (xs : List ℕ) (i j v : ℕ) → ¬ (i ≡ j) → get_elem? (set xs i v) j ≡ get_elem? xs j
get_elem?-set_other [] i j v h = refl
get_elem?-set_other (x ∷ xs) zero zero v h = absurd (h refl)
get_elem?-set_other (x ∷ xs) zero (suc j) v h = refl
get_elem?-set_other (x ∷ xs) (suc i) zero v h = refl
get_elem?-set_other (x ∷ xs) (suc i) (suc j) v h = get_elem?-set_other xs i j v (λ e. h (ap suc e))

module _ (last size : ℕ) (last_in : last < size) where
  pub place_in : (i : ℕ) → i ≤ size → place last size i < size
  place_in i h = ground arith

  pub next_in : size < 2 ^ 16 → next_at last size < size
  next_in small = ground arith

  pub place_apart : (i j : ℕ) → i < j → j < size → ¬ (place last size j ≡ place last size i)
  place_apart i j h k e = ground arith

  pub place_next :
      (i : ℕ)
      → i < size
      → size < 2 ^ 16
      → next_at (place last size i) size ≡ place last size (i + 1)
  place_next i h small = ground arith

  pub place_behind :
      (i : ℕ)
      → i < size
      → size < 2 ^ 16
      → place (next_at last size) size i ≡ place last size (i + 1)
  place_behind i h small = ground arith
