-- ===== src/Api/Errors/Laws.antt =====
-- The responses that errors become (src/api/routes.rs).
use uni_mail.Common.{◌≡◌, ◌⊎◌, inl, inr, refl}
use uni_mail.Error.{AppError, config, storage, internal, io, to_string}
use uni_mail.Api.Errors.{into_response, ErrorResponse}

-- The errors whose text stays on the server.
abbrev pub IsHidden : AppError → Type 0
IsHidden (internal m) = Unit
IsHidden (storage m) = Unit
IsHidden (io m) = Unit
IsHidden e = ⊥

abbrev pub hidden_response : ErrorResponse
hidden_response = record { status = 500; error = "internal error" }

-- A storage, internal or I/O error gives one and the same response whatever its text; every other
-- error is shown with its full text.
pub into_response_cases :
    (e : AppError)
    → (IsHidden e × (into_response e ≡ hidden_response))
      ⊎ ((¬ IsHidden e) × ((into_response e).error ≡ to_string e))
unfolding into_response
into_response_cases (internal m) = inl (tt, refl)
into_response_cases (storage m) = inl (tt, refl)
into_response_cases (io m) = inl (tt, refl)
into_response_cases (config m) = inr (λ h. h, refl)
into_response_cases e = inr (λ h. h, refl)
