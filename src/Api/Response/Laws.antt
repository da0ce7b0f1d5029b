-- ===== src/Api/Response/Laws.antt =====
-- The responses of the REST API (src/api), as a client reads them.
use uni_mail.Common.{
  ℕ, ◌≡◌, ◌⊎◌, ap, sym, ◌∙◌, inl, inr, refl, String, true, List, [], ◌∷◌, Option, none, some, any,
  eqb, eq_iff,
}
use mathlib.Core.Path.{subst}
use uni_mail.Error.{Outcome, ok, err, panic, AppError}
use uni_mail.Exec.{World, Exec, pure}
use uni_mail.Exec.Calm.{NoPanic}
use uni_mail.Exec.Yields.{Yields, pure-Yields, chain-Yields, bind-Yields, any-Yields}
use uni_mail.Host.{Host}
use uni_mail.Json
use uni_mail.Json.{Value}
use uni_mail.Provider.{SendMailRequest}
use uni_mail.Api.Auth.{Headers, Reply, answered, unauthorized}
use uni_mail.Api.Auth.Laws.{middleware_cases}
use uni_mail.Api.Errors.{into_response, status_for}
use uni_mail.Api.Routes
use uni_mail.Api.Routes.{AppState}
use uni_mail.Api.Router.{
  Endpoint, Body, accounts, auth_url, status, emails, email, inbox, handler, router, as_body,
}
use uni_mail.Api.Json.{to_object, to_members, account_json, email_json, unified_json}
use uni_mail.Api.Json.Laws.{
  field, read_array, read_account, read_email, read_unified, read_array-to_array,
  read_account-account_json, read_email-email_json, read_unified-unified_json,
}
use uni_mail.Api.Response.{Response, one_field, of_body, of_reply, of_error, respond}

-- The body can be read.
abbrev pub IsRead : {A : Type 0} → (Value → Option A) → Response → Type 0
IsRead {A} read r = (v : Value) × (a : A) × (r.body ≡ some v) × (read v ≡ some a)

-- The responses that an endpoint promises on success.
unfoldable pub IsSuccess : Endpoint → Response → Type 0
IsSuccess Endpoint.list_accounts r = (r.code ≡ 200) × IsRead (read_array read_account) r
IsSuccess Endpoint.connect_account r = (r.code ≡ 200) × IsRead (field "auth_url" Json.as_str) r
IsSuccess (Endpoint.disconnect_account id) r = (r.code ≡ 204) × (r.body ≡ none)
IsSuccess (Endpoint.list_emails id limit query) r =
    (r.code ≡ 200) × IsRead (read_array read_email) r
IsSuccess (Endpoint.get_email id message_id) r = (r.code ≡ 200) × IsRead read_email r
IsSuccess (Endpoint.send_email id body) r = (r.code ≡ 202) × (r.body ≡ none)
IsSuccess (Endpoint.unified_inbox limit) r = (r.code ≡ 200) × IsRead (read_array read_unified) r

abbrev pub error_codes : List ℕ
error_codes = 400 ∷ 401 ∷ 404 ∷ 500 ∷ 502 ∷ []

-- The responses to what fails.
unfoldable pub IsFailure : Response → Type 0
IsFailure r =
    (any (λ code. eqb code r.code) error_codes ≡ true) × IsRead (field "error" Json.as_str) r

one_field-read : (name text : String) → field name Json.as_str (one_field name text) ≡ some text
unfolding to_object to_members Json.get Json.find_member Json.as_str
one_field-read name text = rw ((eq_iff name name).1 refl) refl

module _ (host : Host) (state : AppState) where
  -- The response to what a handler returns is the one of its endpoint.
  body-Yields :
      {A : Type 0} (endpoint : Endpoint) (f : A → Body) (Q : A → Type 0) (m : Exec AppError A)
      → Yields Q m
      → ((a : A) → Q a → IsSuccess endpoint (of_body (f a)))
      → Yields (λ reply. IsSuccess endpoint (of_reply reply)) (as_body f m)
  unfolding of_reply
  body-Yields endpoint f Q m q h =
      chain-Yields Q m (λ a. pure (answered (f a))) q
        (λ a k. pure-Yields (λ reply. IsSuccess endpoint (of_reply reply)) (answered (f a)) (h a k))

  disconnect-Yields :
      (tenant id : String) → Yields (λ n. n ≡ 204) (Routes.disconnect_account host state tenant id)
  unfolding Routes.disconnect_account
  disconnect-Yields tenant id =
      search (bind-Yields, pure-Yields {A = ℕ} (λ n. n ≡ 204) 204 refl) depth 10

  send-Yields :
      (tenant id : String) (body : SendMailRequest)
      → Yields (λ n. n ≡ 202) (Routes.send_email host state tenant id body)
  unfolding Routes.send_email
  send-Yields tenant id body =
      search (bind-Yields, pure-Yields {A = ℕ} (λ n. n ≡ 202) 202 refl) depth 10

  handler-Yields :
      (endpoint : Endpoint) (tenant : String)
      → Yields (λ reply. IsSuccess endpoint (of_reply reply)) (handler host state endpoint tenant)
  unfolding handler IsSuccess of_body
  handler-Yields Endpoint.list_accounts tenant =
      body-Yields Endpoint.list_accounts accounts (λ _. Unit {0}) _ (any-Yields _)
        (λ found _. (
          refl,
          (
            _,
            found,
            refl,
            read_array-to_array account_json read_account read_account-account_json found,
          ),
        ))
  handler-Yields Endpoint.connect_account tenant =
      body-Yields Endpoint.connect_account auth_url (λ _. Unit {0}) _ (any-Yields _)
        (λ url _. (refl, (_, url, refl, one_field-read "auth_url" url)))
  handler-Yields (Endpoint.disconnect_account id) tenant =
      body-Yields (Endpoint.disconnect_account id) status (λ n. n ≡ 204) _
        (disconnect-Yields tenant id) (λ n same. (same, refl))
  handler-Yields (Endpoint.list_emails id limit query) tenant =
      body-Yields (Endpoint.list_emails id limit query) emails (λ _. Unit {0}) _ (any-Yields _)
        (λ found _. (
          refl,
          (_, found, refl, read_array-to_array email_json read_email read_email-email_json found),
        ))
  handler-Yields (Endpoint.get_email id message_id) tenant =
      body-Yields (Endpoint.get_email id message_id) email (λ _. Unit {0}) _ (any-Yields _)
        (λ found _. (refl, (_, found, refl, read_email-email_json found)))
  handler-Yields (Endpoint.send_email id body) tenant =
      body-Yields (Endpoint.send_email id body) status (λ n. n ≡ 202) _ (send-Yields tenant id body)
        (λ n same. (same, refl))
  handler-Yields (Endpoint.unified_inbox limit) tenant =
      body-Yields (Endpoint.unified_inbox limit) inbox (λ _. Unit {0}) _ (any-Yields _)
        (λ found _. (
          refl,
          (
            _,
            found,
            refl,
            read_array-to_array unified_json read_unified read_unified-unified_json found,
          ),
        ))

status_for-listed : (e : AppError) → any (λ code. eqb code (status_for e)) error_codes ≡ true
unfolding status_for any
status_for-listed (AppError.config m) = refl
status_for-listed (AppError.not_found m) = refl
status_for-listed (AppError.auth m) = refl
status_for-listed (AppError.token_expired m) = refl
status_for-listed (AppError.provider m) = refl
status_for-listed (AppError.storage m) = refl
status_for-listed (AppError.invalid_request m) = refl
status_for-listed (AppError.internal m) = refl
status_for-listed (AppError.io m) = refl

of_error-IsFailure : (e : AppError) → IsFailure (of_error e)
unfolding IsFailure of_error into_response
of_error-IsFailure e = (status_for-listed e, (_, _, refl, one_field-read "error" _))

ok-injective : (E : Type 0) {A : Type 0} {a b : A} → ◌≡◌ {A = Outcome E A} (ok a) (ok b) → a ≡ b
ok-injective E e = cc

module _ (host : Host) (state : AppState) where
  reply-IsSuccess :
      (headers : Headers) (endpoint : Endpoint) (w : World) (reply : Reply Body)
      → (router host state headers endpoint w).0 ≡ ok reply
      → IsSuccess endpoint (of_reply reply) ⊎ IsFailure (of_reply reply)
  unfolding router of_reply IsFailure any
  reply-IsSuccess headers endpoint w reply h =
      elim (middleware_cases state.config headers (handler host state endpoint) w) [
        | inl (tenant, known, e) ↦
            inl ((handler-Yields host state endpoint tenant).at w reply (ap (λ x. x.0) (sym e) ∙ h))
        | inr e ↦
            let same : unauthorized "invalid or missing API key" ≡ reply =
              ok-injective AppError (ap (λ x. x.0) (sym e) ∙ h) in
            inr (
              subst (λ r. IsFailure (of_reply r)) same
                (refl, (_, _, refl, one_field-read "error" "invalid or missing API key")))
      ]

  answered_cases :
      (headers : Headers) (endpoint : Endpoint) (w : World) (r : Outcome AppError (Reply Body))
      → (router host state headers endpoint w).0 ≡ r
      → NoPanic r
      → (response : Response) × (respond r ≡ some response)
        × (IsSuccess endpoint response ⊎ IsFailure response)
  unfolding respond
  answered_cases headers endpoint w (ok reply) e h =
      (of_reply reply, refl, reply-IsSuccess headers endpoint w reply e)
  answered_cases headers endpoint w (err e') e h = (of_error e', refl, inr (of_error-IsFailure e'))
  answered_cases headers endpoint w (panic text) e h = absurd h

  -- A request that does not panic is answered, either with what its endpoint promises or with an
  -- error.
  pub router_responds :
      (headers : Headers) (endpoint : Endpoint) (w : World)
      → NoPanic (router host state headers endpoint w).0
      → (response : Response) × (respond (router host state headers endpoint w).0 ≡ some response)
        × (IsSuccess endpoint response ⊎ IsFailure response)
  router_responds headers endpoint w h = answered_cases headers endpoint w _ refl h
