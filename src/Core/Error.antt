-- ===== src/Core/Error.antt =====
-- src/base/Error.h and src/base/Result.h. A function that returns `Result<T>` returns a `Result T`
-- here; `Result<void>` is `Result Unit`. A C++ exception that leaves a function is an `Outcome`.
use embedded_agent.Base.{◌≡◌, refl, ◌⊎◌, inl, inr, ℕ, Bytes, Bool, true, false, []}

pub data ErrorCode : Type 0 where
  unknown network_error timeout auth_error rate_limit invalid_argument not_found io_error db_error
        tool_error parse_error security_blocked config_error :
      ErrorCode

pub record Error : Type 0 where
  pub code : ErrorCode
  pub message : Bytes
  pub http_status : ℕ
  pub detail : Bytes

-- The factory functions: `Error::timeout(msg)` is `error_of timeout msg`.
abbrev pub error_of : ErrorCode → Bytes → Error
error_of c m = record { code = c; message = m; http_status = 0; detail = [] }

-- `Error::net(msg, status)`
abbrev pub net_error : Bytes → ℕ → Error
net_error m status = record {
  code = ErrorCode.network_error;
  message = m;
  http_status = status;
  detail = [];
}

pub data Result {ℓ} (A : Type ℓ) : Type ℓ where
  ok : A → Result A
  err : Error → Result A

-- `r.ok()`
abbrev pub is_ok {ℓ} : {A : Type ℓ} → Result A → Bool
is_ok (ok a) = true
is_ok (err e) = false

pub Result-cases {ℓ} :
    {A : Type ℓ} (r : Result A) → ((a : A) × (r ≡ ok a)) ⊎ ((e : Error) × (r ≡ err e))
Result-cases (ok a) = inl (a, refl)
Result-cases (err e) = inr (e, refl)

-- What a call that may throw does: it returns, or an exception leaves it.
pub data Outcome {ℓ} (A : Type ℓ) : Type ℓ where
  returned : A → Outcome A
  thrown : Outcome A

pub Outcome-cases {ℓ} : {A : Type ℓ} (o : Outcome A) → ((a : A) × (o ≡ returned a)) ⊎ (o ≡ thrown)
Outcome-cases (returned a) = inl (a, refl)
Outcome-cases thrown = inr refl

infixl 5 ◌>>=◌
abbrev pub ◌>>=◌ {ℓ κ} : {A : Type ℓ} {B : Type κ} → Outcome A → (A → Outcome B) → Outcome B
returned a >>= f = f a
thrown >>= f = thrown
