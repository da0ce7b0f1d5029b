-- ===== src/Api/Errors.antt =====
-- src/api/routes.rs: the HTTP status and the body that an error of the program becomes.
pub mod Laws
use uni_mail.Common.{ℕ, ◌≡◌, ◌↔◌, ◌⊎◌, inl, inr, refl, String, Bool, true, false, arith}
use uni_mail.Error.{
  AppError, config, not_found, auth, token_expired, provider, storage, invalid_request, internal,
  io, to_string,
}

-- `status_for`
unfoldable pub status_for : AppError → ℕ
status_for (not_found m) = 404
status_for (auth m) = 401
status_for (token_expired m) = 401
status_for (invalid_request m) = 400
status_for (provider m) = 502
status_for (config m) = 500
status_for (storage m) = 500
status_for (internal m) = 500
status_for (io m) = 500

-- The text of the `error` field of the body.
unfoldable pub message_for : AppError → String
unfolding to_string
message_for (internal m) = "internal error"
message_for (storage m) = "internal error"
message_for (io m) = "internal error"
message_for e = to_string e

pub record ErrorResponse : Type 0 where
  pub status : ℕ
  pub error : String

-- `into_response`
unfoldable pub into_response : AppError → ErrorResponse
unfolding status_for message_for
into_response e = record { status = status_for e; error = message_for e }
