-- ===== src/Base/Arrays.antt =====
-- An array filled member by member from an index on.
use Prim.Native.Nat.{ℕ, zero, suc, ◌+◌, ◌≤◌, ◌<◌}
use mathlib.Core.Path.{◌≡◌, refl, ap, ◌∙◌}
use mathlib.Core.List.{List, [], ◌∷◌, ◌++◌, append-nil, append_assoc}
use mathlib.Core.Option.{none, some}
use native.Mathlib.Omega.{arith}
use native.Mathlib.Nat.{add-zero}
use native.Mathlib.Numerals.{add-one}
use remotus_hardware.Base.Lists.{length, get_elem?, set, take, length-set}
use remotus_hardware.Base.Tests.{if◌then◌else◌, ◌==◌, ==-same}

pub next_index : (i n : ℕ) → i + suc n ≡ i + 1 + n
next_index i n = omega arith

module _ {ℓ} {A : Type ℓ} where
  abbrev pub store_all : List A → ℕ → List A → List A
  store_all xs i [] = xs
  store_all xs i (v ∷ vs) = store_all (set xs i v) (i + 1) vs

  pub get_elem?-in : (xs : List A) (i : ℕ) → i < length xs → (a : A) × (get_elem? xs i ≡ some a)
  get_elem?-in [] i h = absurd (omega arith)
  get_elem?-in (x ∷ xs) zero h = (x, refl)
  get_elem?-in (x ∷ xs) (suc i) h = get_elem?-in xs i (omega arith)

  pub get_elem?-out : (xs : List A) (i : ℕ) → length xs ≤ i → get_elem? xs i ≡ none
  get_elem?-out [] i h = refl
  get_elem?-out (x ∷ xs) zero h = absurd (omega arith)
  get_elem?-out (x ∷ xs) (suc i) h = get_elem?-out xs i (omega arith)

  take-set :
      (xs : List A) (i : ℕ) (v : A)
      → i < length xs
      → take (suc i) (set xs i v) ≡ take i xs ++ (v ∷ [])
  take-set [] i v h = absurd (omega arith)
  take-set (x ∷ xs) zero v h = refl
  take-set (x ∷ xs) (suc i) v h = ap (λ t. x ∷ t) (take-set xs i v (omega arith))

  -- The members before the index stay, and those stored follow them.
  pub take-store_all :
      (xs : List A) (i : ℕ) (vs : List A)
      → i + length vs ≤ length xs
      → take (i + length vs) (store_all xs i vs) ≡ take i xs ++ vs
  take-store_all xs i [] h = rw (add-zero, append-nil)
  take-store_all xs i (v ∷ vs) h =
      ap (λ k. take k (store_all (set xs i v) (i + 1) vs)) (next_index i (length vs))
      ∙ take-store_all (set xs i v) (i + 1) vs (omega (arith, length-set xs i v))
      ∙ rw (add-one, take-set xs i v (omega arith), append_assoc)

-- How often a number occurs.
abbrev pub count : ℕ → List ℕ → ℕ
count x [] = 0
count x (b ∷ bs) = (if x == b then 1 else 0) + count x bs

pub count_self : (b : ℕ) (bs : List ℕ) → 0 < count b (b ∷ bs)
count_self b bs = rw (==-same b) (omega arith)

pub count-append : (x : ℕ) (xs ys : List ℕ) → count x (xs ++ ys) ≡ count x xs + count x ys
count-append x [] ys = omega arith
count-append x (z ∷ xs) ys = omega (arith, count-append x xs ys)
