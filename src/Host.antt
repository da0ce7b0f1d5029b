-- ===== src/Host.antt =====
-- Everything the program asks of code outside the repository: clocks, randomness, the SQL engine's
-- failures, chrono's text format, AES-GCM and HTTP. A `Host` answers the n-th question by a function
-- of n, so each answer may differ from the ones before it.
use uni_mail.Common.{ℕ, String, Option, List}
use uni_mail.Error.{Outcome}
use uni_mail.Json.{Value}
use uni_mail.Storage.Models.{AccountRow, TokenRow}

pub data Method : Type 0 where
  get_method post_method : Method

-- A request that leaves the process.
pub data Request : Type 0 where
  -- `exchange_code(code)` with the PKCE verifier, and `exchange_refresh_token(token)`
  code_grant : String → String → Request
  refresh_grant : String → Request
  -- method, URL, bearer token and JSON body of a request to Microsoft Graph
  graph : Method → String → String → Option Value → Request

-- `oauth2::StandardTokenResponse`: the lifetime is in nanoseconds.
pub record TokenResponse : Type 0 where
  pub access_token : String
  pub refresh_token : Option String
  pub expires_in : Option ℕ
  pub scopes : Option (List String)

-- `reqwest::Response`: the text is `none` where reading the body fails.
pub record Response : Type 0 where
  pub status : ℕ
  pub text : Option String

-- `OAuthClient` (src/auth/oauth.rs), without its HTTP client
pub record OAuthClient : Type 0 where
  pub client_id : String
  pub client_secret : String
  pub auth_url : String
  pub token_url : String
  pub redirect_uri : String

-- The consent URL with the PKCE verifier and the CSRF state made for it.
pub record Consent : Type 0 where
  pub url : String
  pub verifier : String
  pub state : String

pub record Host : Type 0 where
  -- `Utc::now()`, in nanoseconds since chrono's earliest time
  pub utc_now : ℕ → ℕ
  -- chrono's latest time on that scale, past which adding a duration panics
  pub max_time : ℕ
  -- `SystemTime::now().duration_since(UNIX_EPOCH)` in seconds; `none` before the epoch
  pub unix_time : ℕ → Option ℕ
  pub to_rfc3339 : ℕ → String
  pub parse_from_rfc3339 : String → Option ℕ
  -- `String::as_bytes` and `String::from_utf8`
  pub as_bytes : String → List ℕ
  pub from_utf8 : List ℕ → Outcome String String
  pub new_uuid : ℕ → String
  -- the bytes that `fill_bytes` puts into a nonce
  pub random_nonce : ℕ → List ℕ
  -- `Aes256Gcm::new_from_slice`, the error if the key is refused
  pub cipher_error : List ℕ → Option String
  -- `cipher.encrypt(nonce, plaintext)` and `cipher.decrypt(nonce, ciphertext)` with a key
  pub gcm_encrypt : List ℕ → List ℕ → List ℕ → Outcome String (List ℕ)
  pub gcm_decrypt : List ℕ → List ℕ → List ℕ → Outcome String (List ℕ)
  -- a failure of the SQL engine (disk, lock, corrupt row), with its message
  pub sql_fault : ℕ → Option String
  -- SQLite's `lower`, and the order in which it returns rows for `ORDER BY updated_at DESC`
  pub sql_lower : String → String
  pub order_by_updated : List AccountRow → List AccountRow
  -- the order in which SQLite returns the inactive tokens' rows, for which the query has no ORDER BY
  pub order_inactive : List TokenRow → List TokenRow
  -- the message of a foreign key violation
  pub foreign_key_error : String
  -- the `oauth2` client: the consent URL for a list of scopes, and the token endpoint
  pub consent : ℕ → OAuthClient → List String → Consent
  pub token_endpoint : ℕ → OAuthClient → Request → Outcome String TokenResponse
  -- `reqwest`: a request to Microsoft Graph
  pub send : ℕ → Request → Outcome String Response
  pub parse_json : String → Outcome String Value
  pub parse_url : String → Outcome String String
