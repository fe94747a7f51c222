-- ===== src/Prelude/Errors.antt =====
-- A Go function's value or its error.
pub data Result {ℓ κ} (E : Type ℓ) (A : Type κ) : Type (ℓ ⊔ κ) where
  ok : A → Result E A
  err : E → Result E A
