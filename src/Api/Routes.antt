-- ===== src/Api/Routes.antt =====
-- src/api/routes.rs: the handlers behind the middleware. A handler's result is what its body is
-- made from; turning it into JSON is axum's.
pub mod Laws
use uni_mail.Common.{ℕ, String, Option, none, some, List, min}
use mathlib.Core.Option
use uni_mail.Config.{Config}
use uni_mail.Error.{AppError}
use uni_mail.Exec.{Exec, ◌>>=◌, ◌>>◌, pure}
use uni_mail.Host.{Host}
use uni_mail.Storage.Models.{Account}
use uni_mail.Storage.Accounts
use uni_mail.Auth.Token.{TokenManager}
use uni_mail.Auth.Flow.{begin_flow}
use uni_mail.Auth.Batch.{disconnect}
use uni_mail.Provider.{Email, UnifiedEmail, SendMailRequest, EmailProvider}
use uni_mail.Provider.Inbox.{aggregate_unified_inbox}

abbrev pub default_limit : ℕ
default_limit = 20

abbrev pub max_limit : ℕ
max_limit = 200

-- `query.limit.unwrap_or(DEFAULT_LIMIT).min(MAX_LIMIT)`
unfoldable pub page_limit : Option ℕ → ℕ
page_limit limit = min (Option.get_or limit default_limit) max_limit

-- `AppState`: the stores are those of the shared database.
pub record AppState : Type 0 where
  pub config : Config
  pub provider : EmailProvider
  pub token_manager : TokenManager

module _ (host : Host) (state : AppState) (tenant : String) where
  unfoldable pub list_accounts : Exec AppError (List Account)
  list_accounts = Accounts.list host tenant

  unfoldable pub connect_account : Exec AppError String
  connect_account = begin_flow host state.token_manager tenant

  unfoldable pub disconnect_account : String → Exec AppError ℕ
  disconnect_account id = do
    account ← Accounts.get host tenant id
    disconnect host state.token_manager account
    pure 204

  unfoldable pub list_emails : String → Option ℕ → Option String → Exec AppError (List Email)
  list_emails id limit query = do
    account ← Accounts.get host tenant id
    state.provider.list_messages account (page_limit limit) query

  unfoldable pub get_email : String → String → Exec AppError Email
  get_email id message_id = do
    account ← Accounts.get host tenant id
    state.provider.get_message account message_id

  unfoldable pub send_email : String → SendMailRequest → Exec AppError ℕ
  send_email id body = do
    account ← Accounts.get host tenant id
    state.provider.send_message account body.to body.subject body.body
    pure 202

  unfoldable pub unified_inbox : Option ℕ → Exec AppError (List UnifiedEmail)
  unified_inbox limit = do
    accounts ← Accounts.list host tenant
    aggregate_unified_inbox host state.provider accounts (page_limit limit)
