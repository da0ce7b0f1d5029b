-- ===== src/Mcp.antt =====
-- src/mcp/mod.rs: the tools of the MCP server, which work on the default tenant. Turning a result
-- into JSON text is serde's, and the protocol is rmcp's.
pub mod Keeping
pub mod Returns
pub mod Laws
use Prim.Native.String
use uni_mail.Common.{ℕ, String, Option, none, some, List, min}
use mathlib.Core.Option
use uni_mail.Error.{Outcome, ok, err, panic, map_err, AppError, internal, to_string}
use uni_mail.Config.Env.{and_then}
use uni_mail.Exec.{Exec, ◌>>=◌, pure, crash, attempt, on_error}
use uni_mail.Host.{Host}
use uni_mail.Storage.Models.{Account}
use uni_mail.Storage.Accounts
use uni_mail.Provider.{Email, UnifiedEmail}
use uni_mail.Provider.Inbox.{aggregate_unified_inbox}
use uni_mail.Api.Routes.{AppState}

abbrev pub default_limit : ℕ
default_limit = 20

-- `CallToolResult`: a value, or an error that the caller sees.
pub data CallToolResult (B : Type 0) : Type 0 where
  success : B → CallToolResult B
  tool_error : String → CallToolResult B

-- `ErrorData::internal_error`
pub data ErrorData : Type 0 where
  internal_error : String → ErrorData

-- `to_protocol_error`
unfoldable pub to_protocol_error : AppError → ErrorData
to_protocol_error e = internal_error "internal server error"

-- `match result { Ok(a) => …, Err(e) => Ok(tool_error(&e)) }`
unfoldable pub or_tool_error :
    {A B : Type 0}
    → Outcome AppError A
    → (A → Exec ErrorData (CallToolResult B))
    → Exec ErrorData (CallToolResult B)
or_tool_error (ok a) f = f a
or_tool_error (err e) f = pure (tool_error (to_string e))
or_tool_error (panic text) f = crash text

-- A computation whose value is the tool's, and whose error the caller sees.
unfoldable pub as_tool : {A : Type 0} → Exec AppError A → Exec ErrorData (CallToolResult A)
unfolding or_tool_error
as_tool m = do result ← attempt m; or_tool_error result (λ a. pure (success a))

unfoldable pub list_limit : Option ℕ → ℕ
list_limit limit = min (Option.get_or limit default_limit) 200

unfoldable pub inbox_limit : Option ℕ → ℕ
inbox_limit limit = min (Option.get_or limit 50) 500

module _ (host : Host) (state : AppState) where
  abbrev pub tenant : String
  tenant = state.config.default_tenant_id

  -- The second half of `resolve_account`: by email, if the id is not found.
  unfoldable pub or_by_email : String → String → Outcome AppError Account → Exec AppError Account
  or_by_email tenant_id key (ok a) = pure a
  or_by_email tenant_id key (err e) = Accounts.get_by_email host tenant_id key
  or_by_email tenant_id key (panic text) = crash text

  -- `resolve_account`, for a tenant
  unfoldable pub resolve_in : String → String → Exec AppError Account
  unfolding or_by_email
  resolve_in tenant_id id_or_email = do
    found ← attempt (Accounts.get host tenant_id id_or_email)
    or_by_email tenant_id id_or_email found

  unfoldable pub resolve_account : String → Exec AppError Account
  unfolding resolve_in
  resolve_account id_or_email = resolve_in tenant id_or_email

  -- The tools that work on one account: resolve it, then call the provider.
  unfoldable pub with_account :
      {A : Type 0} → String → (Account → Exec AppError A) → Exec ErrorData (CallToolResult A)
  unfolding as_tool or_tool_error
  with_account account call = do
    resolved ← attempt (resolve_account account)
    or_tool_error resolved (λ a. as_tool (call a))

  unfoldable pub list_accounts : Exec ErrorData (CallToolResult (List Account))
  list_accounts = do
    accounts ← on_error to_protocol_error (Accounts.list host tenant)
    pure (success accounts)

  unfoldable pub list_emails : String → Option ℕ → Exec ErrorData (CallToolResult (List Email))
  unfolding with_account list_limit
  list_emails account limit =
      with_account account (λ a. state.provider.list_messages a (list_limit limit) none)

  unfoldable pub search_emails : String → String → Exec ErrorData (CallToolResult (List Email))
  unfolding with_account
  search_emails account query =
      with_account account (λ a. state.provider.list_messages a 50 (some query))

  unfoldable pub read_email : String → String → Exec ErrorData (CallToolResult Email)
  unfolding with_account
  read_email account message_id =
      with_account account (λ a. state.provider.get_message a message_id)

  unfoldable pub send_email :
      String → String → String → String → Exec ErrorData (CallToolResult (Unit {0}))
  unfolding with_account
  send_email account to subject body =
      with_account account (λ a. state.provider.send_message a to subject body)

  unfoldable pub unified_inbox : Option ℕ → Exec ErrorData (CallToolResult (List UnifiedEmail))
  unfolding as_tool inbox_limit
  unified_inbox limit = do
    accounts ← on_error to_protocol_error (Accounts.list host tenant)
    as_tool (aggregate_unified_inbox host state.provider accounts (inbox_limit limit))

-- `serve_stdio`, given what rmcp answers when the server starts, and when the client is gone
unfoldable pub serve_stdio :
    Outcome String (Unit {0}) → Outcome String (Unit {0}) → Outcome AppError (Unit {0})
serve_stdio started stopped =
    and_then (map_err (λ e. internal (String.◌++◌ "MCP initialization failed: " e)) started) (λ _.
      and_then (map_err (λ e. internal (String.◌++◌ "MCP server stopped: " e)) stopped)
        (λ _. ok tt))
