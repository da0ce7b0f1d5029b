-- ===== src/Error.antt =====
-- src/error.rs: the error type of every layer, and Rust's results with a panic as a third outcome.
use Prim.Native.String.{◌++◌}
use uni_mail.Common.{String, Bool, true, false}

-- What a computation that may fail or panic gives back; `Result<A, E>` with the panic message
-- of an `expect` that was not met.
pub data Outcome {ℓ κ} (E : Type ℓ) (A : Type κ) : Type (ℓ ⊔ κ) where
  ok : A → Outcome E A
  err : E → Outcome E A
  panic : String → Outcome E A

-- `e.map_err(f)`
abbrev pub map_err {ℓ κ μ} :
    {E : Type ℓ} {F : Type κ} {A : Type μ} → (E → F) → Outcome E A → Outcome F A
map_err f (ok a) = ok a
map_err f (err e) = err (f e)
map_err f (panic m) = panic m

-- `e.is_ok()`; a panic is neither.
abbrev pub is_ok {ℓ κ} : {E : Type ℓ} {A : Type κ} → Outcome E A → Bool
is_ok (ok a) = true
is_ok _ = false

-- An I/O error is its message.
pub data AppError : Type 0 where
  config not_found auth token_expired provider storage invalid_request internal io :
      String → AppError

-- `impl Display for AppError`, from the `#[error(…)]` attributes.
unfoldable pub to_string : AppError → String
to_string (config m) = "configuration error: " ++ m
to_string (not_found m) = m
to_string (auth m) = "authorization error: " ++ m
to_string (token_expired m) = "authentication expired: " ++ m
to_string (provider m) = "provider error: " ++ m
to_string (storage m) = "storage error: " ++ m
to_string (invalid_request m) = "invalid request: " ++ m
to_string (internal m) = "internal error: " ++ m
to_string (io m) = "io error: " ++ m
