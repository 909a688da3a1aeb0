-- ===== src/Common/Result.antt =====
-- Go's `(value, error)` results. An error is known by the fixed part of its message.
use Prim.Native.String.{String}

pub data Result {ℓ} (A : Type ℓ) : Type ℓ where
  ok : A → Result A
  err : String → Result A

module _ {ℓ κ} {A : Type ℓ} {B : Type κ} where
  -- `if err != nil { return err }`
  infixl 5 ◌>>=◌
  abbrev pub ◌>>=◌ : Result A → (A → Result B) → Result B
  ◌>>=◌ (err message) next = err message
  ◌>>=◌ (ok value) next = next value
