-- ===== src/Base/Outcome.antt =====
-- A C function that returns a status code and, if that is OPDI_STATUS_OK, an out parameter.
use Prim.Native.Nat.{ℕ}

pub data Result {ℓ} (A : Type ℓ) : Type ℓ where
  ok : A → Result A
  err : ℕ → Result A
