-- ===== src/Base/Promise.antt =====
-- A promise that has settled: rejected with an error's message, or fulfilled with a value.
use Prim.Native.Nat.{ℕ}
use mathlib.Core.Path.{◌≡◌, refl}
use mathlib.Core.List.{List}

pub data Result {ℓ} (A : Type ℓ) : Type ℓ where
  err : (message : List ℕ) → Result A
  ok : (value : A) → Result A

-- What is chained to a promise runs once it is fulfilled.
infixl 5 ◌>>=◌
abbrev pub ◌>>=◌ {ℓ κ} : {A : Type ℓ} {B : Type κ} (promise : Result A) → (A → Result B) → Result B
promise >>= continue = elim promise [ err message ↦ err message | ok value ↦ continue value ]

-- A chain that is fulfilled has a fulfilled first part.
pub fulfilled_parts {ℓ κ} :
    {A : Type ℓ} {B : Type κ} {b : B} (promise : Result A) (continue : A → Result B)
    → (promise >>= continue) ≡ ok b
    → (value : A) × (promise ≡ ok value) × (continue value ≡ ok b)
fulfilled_parts (err message) continue h = cc
fulfilled_parts (ok value) continue h = (value, refl, h)
