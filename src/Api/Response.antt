-- ===== src/Api/Response.antt =====
-- src/api/routes.rs, src/api/mod.rs and src/api/auth.rs: the HTTP response that a handler's result
-- becomes, with its JSON body.
pub mod Laws
use uni_mail.Common.{ℕ, String, [], ◌∷◌, Option, none, some}
use uni_mail.Error.{Outcome, ok, err, panic, AppError}
use uni_mail.Json.{Value}
use uni_mail.Api.Auth.{Reply, answered, unauthorized}
use uni_mail.Api.Errors.{into_response}
use uni_mail.Api.Router.{Body, accounts, auth_url, status, emails, email, inbox}
use uni_mail.Api.Json.{to_object, to_array, account_json, email_json, unified_json}

-- The status, and the JSON body if there is one.
pub record Response : Type 0 where
  pub code : ℕ
  pub body : Option Value

-- `json!({ name: text })`
abbrev pub one_field : String → String → Value
one_field name value = to_object ((name, Value.text value) ∷ [])

-- `Json(…)`, or a bare `StatusCode`, of each handler
unfoldable pub of_body : Body → Response
unfolding to_object
of_body (accounts found) = record { code = 200; body = some (to_array account_json found) }
of_body (auth_url url) = record { code = 200; body = some (one_field "auth_url" url) }
of_body (status code) = record { code = code; body = none }
of_body (emails found) = record { code = 200; body = some (to_array email_json found) }
of_body (email found) = record { code = 200; body = some (email_json found) }
of_body (inbox found) = record { code = 200; body = some (to_array unified_json found) }

-- The refusal of the middleware
unfoldable pub of_reply : Reply Body → Response
unfolding of_body to_object
of_reply (answered b) = of_body b
of_reply (unauthorized m) = record { code = 401; body = some (one_field "error" m) }

-- `into_response` of an error
unfoldable pub of_error : AppError → Response
unfolding to_object
of_error e =
    let response = into_response e in
    record { code = response.status; body = some (one_field "error" response.error) }

-- What the client gets; a handler that panics gives no response.
unfoldable pub respond : Outcome AppError (Reply Body) → Option Response
unfolding of_reply of_error
respond (ok reply) = some (of_reply reply)
respond (err e) = some (of_error e)
respond (panic text) = none
