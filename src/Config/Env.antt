-- ===== src/Config/Env.antt =====
-- src/config.rs: `Config::from_env` and `Config::callback_addr`. The environment, the base64 decoder
-- and the parsers of URLs and socket addresses are parameters.
pub mod Laws
use Prim.Native.String
use uni_mail.Common.{ℕ, ℤ, pos, String, Bool, not, List, Option, none, some, ◌==◌, if◌then◌else◌}
use uni_mail.Error.{Outcome, ok, err, panic, map_err, AppError, config}
use uni_mail.Text.{trim}
use uni_mail.Config.{Config, env, parse_key, parse_api_keys}
use uni_mail.Config.Numbers.{parse_i64, parse_u64}

-- What an outcome is followed by: `?`.
abbrev pub and_then {ℓ κ} :
    {A : Type ℓ} {B : Type κ} → Outcome AppError A → (A → Outcome AppError B) → Outcome AppError B
and_then (ok a) f = f a
and_then (err e) f = err e
and_then (panic m) f = panic m

-- `r.unwrap_or_else(|_| s)`, and `r.ok()`
abbrev pub or_default : Outcome AppError String → String → String
or_default (ok v) s = v
or_default _ s = s

abbrev pub ok_of : Outcome AppError String → Option String
ok_of (ok v) = some v
ok_of _ = none

abbrev pub unless_blank : Option String → Option String
unless_blank none = none
unless_blank (some v) = if trim v == "" then none else some v

abbrev pub parsed_or {ℓ} : {A : Type ℓ} → (String → Option A) → A → Option String → A
parsed_or parse default none = default
parsed_or parse default (some v) = elim (parse v) [ none ↦ default | some a ↦ a ]

module _ (variables : String → Option String) (base64 : String → Option (List ℕ))
    (as_bytes : String → List ℕ) where
  -- The settings behind the ones that may fail.
  unfoldable pub settings : String → String → List ℕ → Config
  unfolding parse_i64 parse_u64
  settings client_id client_secret key =
      let read = λ (name : String). env variables name in
      record {
        client_id = client_id;
        client_secret = client_secret;
        redirect_uri = or_default (read "REDIRECT_URI") "http://localhost";
        auth_url =
            or_default (read "AUTH_URL")
              "https://login.microsoftonline.com/common/oauth2/v2.0/authorize";
        token_url =
            or_default (read "TOKEN_URL")
              "https://login.microsoftonline.com/common/oauth2/v2.0/token";
        graph_base_url = or_default (read "GRAPH_BASE_URL") "https://graph.microsoft.com/v1.0";
        encryption_key = key;
        database_path = or_default (read "DATABASE_PATH") "./unimail.db";
        api_keys = parse_api_keys (or_default (read "API_KEYS") "");
        default_tenant_id = or_default (read "DEFAULT_TENANT_ID") "default";
        api_bind_addr = or_default (read "API_BIND_ADDR") "0.0.0.0:8080";
        callback_bind_addr = unless_blank (ok_of (read "CALLBACK_BIND_ADDR"));
        token_inactivity_days = parsed_or parse_i64 (pos 90) (ok_of (read "TOKEN_INACTIVITY_DAYS"));
        refresh_interval_secs = parsed_or parse_u64 21600 (ok_of (read "REFRESH_INTERVAL_SECS"));
      }

  -- `from_env`
  unfoldable pub from_env : Outcome AppError Config
  from_env = and_then (env variables "CLIENT_ID") (λ client_id.
      and_then (env variables "CLIENT_SECRET") (λ client_secret.
        and_then (env variables "ENCRYPTION_KEY") (λ raw.
          and_then (parse_key base64 as_bytes raw)
            (λ key. ok (settings client_id client_secret key)))))

-- The parts of a URL that `callback_addr` reads.
pub record RedirectUrl : Type 0 where
  pub host : Option String
  pub port : Option ℕ
  pub scheme : String

-- `url.port().or_else(…)`, with the port of the scheme
abbrev pub port_of : RedirectUrl → ℕ
port_of url = elim url.port [ some port ↦ port | none ↦ if url.scheme == "https" then 443 else 80 ]

abbrev pub bind_host : Option String → String
bind_host none = "127.0.0.1"
bind_host (some host) = if host == "localhost" then "127.0.0.1" else host

abbrev invalid_bind : String → String → AppError
invalid_bind addr e =
    config (String.◌++◌ "invalid CALLBACK_BIND_ADDR '" (String.◌++◌ addr (String.◌++◌ "': " e)))

-- `callback_addr`, over the parsers of socket addresses and URLs
unfoldable pub callback_addr :
    (String → Outcome String (String × ℕ))
    → (String → Outcome String RedirectUrl)
    → Config
    → Outcome AppError (String × ℕ)
callback_addr parse_addr parse_url c = elim c.callback_bind_addr [
  | some addr ↦ map_err (invalid_bind addr) (parse_addr addr)
  | none ↦
      and_then
        (map_err (λ e. config (String.◌++◌ "invalid REDIRECT_URI: " e)) (parse_url c.redirect_uri))
        (λ url. ok (bind_host url.host, port_of url))
]
