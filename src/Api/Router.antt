-- ===== src/Api/Router.antt =====
-- src/api/mod.rs: the routes. An endpoint is a route with what axum's extractors take from the
-- request; matching paths and decoding is theirs.
use uni_mail.Common.{ℕ, String, Option, List}
use uni_mail.Error.{AppError}
use uni_mail.Exec.{Exec, ◌>>=◌, pure}
use uni_mail.Host.{Host}
use uni_mail.Storage.Models.{Account}
use uni_mail.Provider.{Email, UnifiedEmail, SendMailRequest}
use uni_mail.Api.Auth.{Headers, Reply, answered, api_key_middleware}
use uni_mail.Api.Routes
use uni_mail.Api.Routes.{AppState}

-- The routes behind the middleware, with what axum's extractors took from the request; one that they
-- reject is answered by axum and is not an endpoint here.
pub data Endpoint : Type 0 where
  list_accounts connect_account : Endpoint
  disconnect_account : String → Endpoint
  list_emails : String → Option ℕ → Option String → Endpoint
  get_email : String → String → Endpoint
  send_email : String → SendMailRequest → Endpoint
  unified_inbox : Option ℕ → Endpoint

-- What a handler's response is made from.
pub data Body : Type 0 where
  accounts : List Account → Body
  auth_url : String → Body
  status : ℕ → Body
  emails : List Email → Body
  email : Email → Body
  inbox : List UnifiedEmail → Body

-- A handler's value as the body of the response.
abbrev pub as_body : {A : Type 0} → (A → Body) → Exec AppError A → Exec AppError (Reply Body)
as_body f m = do a ← m; pure (answered (f a))

module _ (host : Host) (state : AppState) where
  unfoldable pub handler : Endpoint → String → Exec AppError (Reply Body)
  handler list_accounts tenant = as_body accounts (Routes.list_accounts host state tenant)
  handler connect_account tenant = as_body auth_url (Routes.connect_account host state tenant)
  handler (disconnect_account id) tenant =
      as_body status (Routes.disconnect_account host state tenant id)
  handler (list_emails id limit query) tenant =
      as_body emails (Routes.list_emails host state tenant id limit query)
  handler (get_email id message_id) tenant =
      as_body email (Routes.get_email host state tenant id message_id)
  handler (send_email id body) tenant = as_body status (Routes.send_email host state tenant id body)
  handler (unified_inbox limit) tenant =
      as_body inbox (Routes.unified_inbox host state tenant limit)

  -- `router`: a request to a protected route
  unfoldable pub router : Headers → Endpoint → Exec AppError (Reply Body)
  unfolding handler
  router headers endpoint = api_key_middleware state.config headers (handler endpoint)

-- `health`
abbrev pub health : String
health = "ok"
