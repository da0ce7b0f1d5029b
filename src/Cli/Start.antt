-- ===== src/Cli/Start.antt =====
-- src/cli/mod.rs and src/api/state.rs: what a process does before it serves a request or runs a
-- subcommand. The environment, rusqlite, reqwest's builder and the sockets are parameters.
use Prim.Native.String
use uni_mail.Common.{ℕ, String, List, Option}
use uni_mail.Error.{Outcome, ok, map_err, AppError, config, internal}
use uni_mail.Exec.{Database}
use uni_mail.Host.{Host}
use uni_mail.Storage.Open.{Engine, open_database}
use uni_mail.Config.{Config}
use uni_mail.Config.Env.{and_then, from_env, callback_addr, RedirectUrl}
use uni_mail.Provider.Graph.Message.{GraphCodec}
use uni_mail.Api.Routes.{AppState}
use uni_mail.Api.State.{build}

-- `build_http_client`, given what reqwest's builder answers
unfoldable pub build_http_client : Outcome String (Unit {0}) → Outcome AppError (Unit {0})
build_http_client answer =
    map_err (λ e. internal (String.◌++◌ "could not build HTTP client: " e)) answer

-- What is there before the program starts.
pub record Environment : Type 0 where
  pub variables : String → Option String
  pub base64 : String → Option (List ℕ)
  pub as_bytes : String → List ℕ
  pub engine : Engine
  pub client : Outcome String (Unit {0})
  pub codec : GraphCodec

module _ (host : Host) (env : Environment) where
  -- `AppState::build`, with the tables of the database that it opens
  unfoldable pub build_state : Config → Outcome AppError (AppState × Database)
  unfolding build_http_client open_database
  build_state c = and_then (build_http_client env.client) (λ _.
      and_then (open_database env.engine c.database_path) (λ db. ok (build host env.codec c, db)))

  -- `run`, up to the dispatch
  unfoldable pub start : Outcome AppError (AppState × Database)
  unfolding build_state
  start = and_then (from_env env.variables env.base64 env.as_bytes) build_state

-- A socket address, and what a parser of them answers.
abbrev pub Addresses : Type 0
Addresses = String → Outcome String (String × ℕ)

-- What `serve` binds: the REST API, and the OAuth callback.
pub record Listeners : Type 0 where
  pub api : String × ℕ
  pub callback : String × ℕ

abbrev invalid_api : String → String → AppError
invalid_api addr e =
    config (String.◌++◌ "invalid API_BIND_ADDR '" (String.◌++◌ addr (String.◌++◌ "': " e)))

-- `serve`, up to the accept loop: a callback address that cannot be bound is only logged.
unfoldable pub serve_addresses :
    Addresses
    → (String → Outcome String RedirectUrl)
    → (String × ℕ → String)
    → Config
    → Outcome AppError Listeners
serve_addresses parse_addr parse_url show_addr c =
    and_then (map_err (invalid_api c.api_bind_addr) (parse_addr c.api_bind_addr)) (λ api.
      and_then (callback_addr parse_addr parse_url c) (λ target.
        and_then
          (map_err (λ e. config (String.◌++◌ "invalid callback address: " e))
            (parse_addr (show_addr target)))
          (λ callback. ok (record { api = api; callback = callback }))))
