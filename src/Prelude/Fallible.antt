-- ===== src/Prelude/Fallible.antt =====
-- A Go function that returns `(A, error)`: a value, or an error in its place.

pub data Except {ℓ κ} (E : Type ℓ) (A : Type κ) : Type (ℓ ⊔ κ) where
  ok : A → Except E A
  err : E → Except E A
