-- ===== src/Auth/Oauth.antt =====
-- src/auth/oauth.rs: the OAuth client of the Microsoft identity platform. URLs are parsed, and token
-- requests answered, by the host.
use Prim.Native.String.{◌++◌}
use uni_mail.Common.{ℕ, ◌+◌, ◌*◌, String, List, [], ◌∷◌, Option, none, some, leb, if◌then◌else◌}
use uni_mail.Error.{map_err, AppError, auth, config, token_expired}
use uni_mail.Exec.{Exec, ◌>>=◌, ◌>>◌, pure, lift, ask, request, crash}
use uni_mail.Host.{Host, OAuthClient, Consent, Request, code_grant, refresh_grant, TokenResponse}

abbrev pub scopes : List String
scopes =
    "offline_access" ∷ "User.Read" ∷ "Mail.Read" ∷ "Mail.ReadWrite" ∷ "Mail.Send" ∷ "openid"
    ∷ "profile" ∷ "email" ∷ []

-- A token set; the time is in nanoseconds.
pub record TokenSet : Type 0 where
  pub access_token : String
  pub refresh_token : Option String
  pub expires_at : Option ℕ
  pub scopes : Option (List String)

abbrev pub second : ℕ
second = 1000000000

abbrev pub hour : ℕ
hour = 3600 * second

abbrev invalid_url : String → String → AppError
invalid_url name e = config ("invalid " ++ name ++ ": " ++ e)

-- `OAuthClient::client`, which checks the three URLs
unfoldable pub client : Host → OAuthClient → Exec AppError (Unit {0})
client host c = do
  lift (map_err (invalid_url "AUTH_URL") (host.parse_url c.auth_url))
  lift (map_err (invalid_url "TOKEN_URL") (host.parse_url c.token_url))
  lift (map_err (invalid_url "REDIRECT_URI") (host.parse_url c.redirect_uri))
  pure tt

-- `authorize_url`: the consent URL, the verifier and the state that the URL holds
unfoldable pub authorize_url : Host → OAuthClient → Exec AppError Consent
unfolding client
authorize_url host c = do client host c; ask (λ n. host.consent n c scopes)

-- `time + duration`, which panics past chrono's latest time
unfoldable pub add_time : {E : Type 0} → Host → ℕ → ℕ → Exec E ℕ
add_time host t d =
    if leb (t + d) host.max_time then pure (t + d) else crash "`DateTime + TimeDelta` overflowed"

-- `chrono::Duration::from_std(d).unwrap_or_else(|_| hours(1))`: a `TimeDelta` holds at most
-- `i64::MAX` milliseconds.
unfoldable pub lifetime : ℕ → ℕ
lifetime d = if leb d (9223372036854775807 * 1000000) then d else hour

unfoldable pub expiry : Host → Option ℕ → Exec AppError (Option ℕ)
unfolding add_time lifetime
expiry host none = pure none
expiry host (some d) = do now ← ask host.utc_now; t ← add_time host now (lifetime d); pure (some t)

-- `token_set_from`
unfoldable pub token_set_from : Host → TokenResponse → Exec AppError TokenSet
unfolding expiry
token_set_from host response = do
  expires_at ← expiry host response.expires_in
  pure (record {
    access_token = response.access_token;
    refresh_token = response.refresh_token;
    expires_at = expires_at;
    scopes = response.scopes;
  })

-- A request to the token endpoint, its failure turned into an error of the program.
unfoldable pub token_request :
    Host → OAuthClient → Request → (String → AppError) → Exec AppError TokenSet
unfolding client token_set_from
token_request host c r e = do
  client host c
  answer ← request r (λ n. host.token_endpoint n c r)
  response ← lift (map_err e answer)
  token_set_from host response

-- `exchange_code`
unfoldable pub exchange_code : Host → OAuthClient → String → String → Exec AppError TokenSet
unfolding token_request
exchange_code host c code verifier =
    token_request host c (code_grant code verifier) (λ e. auth ("token exchange failed: " ++ e))

-- `refresh`
unfoldable pub refresh : Host → OAuthClient → String → Exec AppError TokenSet
unfolding token_request
refresh host c refresh_token =
    token_request host c (refresh_grant refresh_token)
      (λ e. token_expired ("refresh failed: " ++ e))
