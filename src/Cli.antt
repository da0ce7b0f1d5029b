-- ===== src/Cli.antt =====
-- src/cli/mod.rs: the subcommands. A subcommand that succeeds returns the lines that tell its result,
-- and a browser's redirect is an argument; clap, tokio and the sockets are not modelled.
pub mod Loop
pub mod Laws
pub mod Start
pub mod Serve
use Prim.Native.String
use uni_mail.Common.{ℕ, String, Bool, true, List, [], ◌∷◌, map, Option, none, some, max}
use mathlib.Core.Option
use uni_mail.Error.{Outcome, ok, err, panic, map_err, AppError, io, config, to_string}
use uni_mail.Exec.{Exec, ◌>>=◌, ◌>>◌, pure, lift, crash}
use uni_mail.Host.{Host}
use uni_mail.Storage.Models.{Account, as_str}
use uni_mail.Storage.Accounts
use uni_mail.Auth.Token.{TokenManager}
use uni_mail.Auth.Flow.{begin_flow}
use uni_mail.Auth.Batch
use uni_mail.Auth.Callback.{CallbackParams, CallbackState, handle_callback, outcome}
use uni_mail.Api.Routes.{AppState}
use uni_mail.Mcp.{resolve_in}

-- `tenant.map(str::to_string).unwrap_or_else(…)`
unfoldable pub tenant_or_default : AppState → Option String → String
tenant_or_default state tenant = Option.get_or tenant state.config.default_tenant_id

abbrev pub tabbed : List String → String
tabbed [] = ""
tabbed (s ∷ []) = s
tabbed (s ∷ rest) = String.◌++◌ s (String.◌++◌ "\t" (tabbed rest))

-- A line of `list_accounts`
unfoldable pub account_line : Account → String
account_line a = tabbed (a.id ∷ a.email_address ∷ as_str a.status ∷ a.updated_at ∷ [])

abbrev pub listing : List Account → List String
listing [] = "No connected accounts." ∷ []
listing accounts = map account_line accounts

-- A line of `refresh_all`
unfoldable pub outcome_line : Account × Outcome AppError (Unit {0}) → String
outcome_line (a, ok _) = String.◌++◌ "✅ refreshed " a.email_address
outcome_line (a, err e) =
    String.◌++◌ "❌ " (String.◌++◌ a.email_address (String.◌++◌ " — " (to_string e)))
outcome_line (a, panic text) = text

-- The last line of `add_account`
unfoldable pub connected_line : Account → String
connected_line a =
    let name = Option.get_or a.display_name "no display name" in
    String.◌++◌ "✅ Connected "
      (String.◌++◌ a.email_address (String.◌++◌ " (" (String.◌++◌ name ")")))

module _ (host : Host) (state : AppState) where
  -- `list_accounts`
  unfoldable pub list_accounts : Option String → Exec AppError (List String)
  unfolding tenant_or_default
  list_accounts tenant = do
    accounts ← Accounts.list host (tenant_or_default state tenant)
    pure (listing accounts)

  -- `remove_account`
  unfoldable pub remove_account : String → Option String → Exec AppError (List String)
  unfolding tenant_or_default resolve_in
  remove_account account tenant = do
    resolved ← resolve_in host state (tenant_or_default state tenant) account
    Accounts.delete host (tenant_or_default state tenant) resolved.id
    pure (String.◌++◌ "Removed account " resolved.email_address ∷ [])

  -- `refresh_all`
  unfoldable pub refresh_all : Exec AppError (List String)
  unfolding outcome_line
  refresh_all = do
    outcomes ← Batch.refresh_all host state.token_manager
    pure (map outcome_line outcomes)

  -- `serve_callback_once` of src/auth/callback.rs, given whether the address could be bound and the
  -- redirect that arrives.
  unfoldable pub serve_callback_once : Outcome String CallbackParams → Exec AppError Account
  serve_callback_once arrived = do
    params ← lift (map_err io arrived)
    (response, end) ←
        handle_callback host state.token_manager (record { slot = some none; done = true }) params
    lift (outcome end)

  -- `add_account`, given the callback address
  unfoldable pub add_account :
      Option String
      → Outcome AppError (String × ℕ)
      → Outcome String CallbackParams
      → Exec AppError (List String)
  unfolding tenant_or_default connected_line
  add_account tenant address arrived = do
    url ← begin_flow host state.token_manager (tenant_or_default state tenant)
    lift address
    account ← serve_callback_once arrived
    pure (url ∷ connected_line account ∷ [])
