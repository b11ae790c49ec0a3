-- ===== src/Errors.antt =====
-- `AppError` of apps/api/src/utils/app-error.ts, and the outcome of an operation that may throw it.
use psychic_octo_invention.Prelude.{ℕ, String}

pub record AppError : Type 0 where
  pub status_code : ℕ
  pub code : String
  pub message : String

pub data Result {ℓ} (A : Type ℓ) : Type ℓ where
  ok : A → Result A
  err : AppError → Result A
