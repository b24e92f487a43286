-- ===== src/Base/Results.antt =====
-- What an asynchronous function comes to: its value, or what it throws.
use Prim.Native.Nat.{ℕ}
use Prim.Native.String.{String}
use mathlib.Core.Path.{◌≡◌, refl}
use mathlib.Core.Logic.{◌⊎◌, inl, inr}

-- `Error` of the language, `ApiError` of lib/api/client.ts, and the rejection of a database call.
pub data Failure : Type 0 where
  error : String → Failure
  api_error : (message : String) (status : ℕ) → Failure
  constraint_error : Failure

pub data Result {ℓ} (A : Type ℓ) : Type ℓ where
  ok : A → Result A
  err : Failure → Result A

pub Result-cases {ℓ} :
    {A : Type ℓ} (r : Result A) → ((a : A) × (r ≡ ok a)) ⊎ ((e : Failure) × (r ≡ err e))
Result-cases (ok a) = inl (a, refl)
Result-cases (err e) = inr (e, refl)
