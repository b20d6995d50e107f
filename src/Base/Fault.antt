-- ===== src/Base/Fault.antt =====
-- `Option` as the monad of code that may touch memory outside an object: `none` is such a fault.

use mathlib.Core.Option.{Option, none, some}

infixl 5 ◌>>=◌
abbrev pub ◌>>=◌ {ℓ κ} : {A : Type ℓ} {B : Type κ} → Option A → (A → Option B) → Option B
none >>= f = none
some a >>= f = f a
