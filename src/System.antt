-- ===== src/System.antt =====
-- The running program: everything that can be asked of it over HTTP, MCP and the command line (the
-- entry points of src/api, src/auth/callback.rs, src/mcp and src/cli), one request after another, with
-- restarts between them. The parts are those that `AppState::build` makes.
pub mod Consistency
pub mod Isolation
pub mod Keeping
pub mod Ends
pub mod Returns
pub mod Responses
pub mod Secrecy
use uni_mail.Common.{ℕ, String, Option, none, some, false, List, [], ℤ}
use uni_mail.Error.{Outcome, AppError}
use uni_mail.Exec.{World, Database, Exec}
use uni_mail.Host.{Host}
use uni_mail.Config.{Config}
use uni_mail.Provider.Graph.Message.{GraphCodec}
use uni_mail.Auth.Batch.{refresh_stale}
use uni_mail.Auth.Callback.{CallbackParams, handle_callback}
use uni_mail.Api.Auth.{Headers}
use uni_mail.Api.Routes.{AppState}
use uni_mail.Api.Router.{Endpoint, router}
use uni_mail.Api.State.{build}
use uni_mail.Mcp
use uni_mail.Cli

pub data Tool : Type 0 where
  list_accounts : Tool
  list_emails : String → Option ℕ → Tool
  search_emails read_email : String → String → Tool
  send_email : String → String → String → String → Tool
  unified_inbox : Option ℕ → Tool

pub data Command : Type 0 where
  add_account :
      Option String → Outcome AppError (String × ℕ) → Outcome String CallbackParams → Command
  list_accounts : Option String → Command
  remove_account : String → Option String → Command
  refresh_all : Command

pub data Task : Type 0 where
  -- a request to a protected route, a redirect to `/callback`, and a round of `refresh_loop`
  http : Headers → Endpoint → Task
  callback : CallbackParams → Task
  round : ℤ → Task
  tool : Tool → Task
  command : Command → Task
  -- the process ends, and another one opens the database
  restart : Task

-- The state that a computation leaves, whatever it returns.
abbrev pub after : {E A : Type 0} → Exec E A → World → World
after m w = (m w).1

-- No account, token or flow.
abbrev pub empty : Database
empty = record { accounts = []; tokens = []; flows = []; poisoned = false }

abbrev pub first_world : World
first_world = record { db = empty; refresh_locks = []; answers = 0; requests = [] }

-- A new process has fresh locks on the same tables.
abbrev pub reopen : World → World
reopen w = record w { db = record w.db { poisoned = false }; refresh_locks = [] }

module _ (host : Host) (state : AppState) where
  unfoldable pub call_tool : Tool → World → World
  call_tool list_accounts = after (Mcp.list_accounts host state)
  call_tool (list_emails account limit) = after (Mcp.list_emails host state account limit)
  call_tool (search_emails account query) = after (Mcp.search_emails host state account query)
  call_tool (read_email account id) = after (Mcp.read_email host state account id)
  call_tool (send_email account to subject body) =
      after (Mcp.send_email host state account to subject body)
  call_tool (unified_inbox limit) = after (Mcp.unified_inbox host state limit)

  -- `run`: one subcommand
  unfoldable pub run : Command → World → World
  run (add_account tenant address arrived) =
      after (Cli.add_account host state tenant address arrived)
  run (list_accounts tenant) = after (Cli.list_accounts host state tenant)
  run (remove_account account tenant) = after (Cli.remove_account host state account tenant)
  run refresh_all = after (Cli.refresh_all host state)

  unfoldable pub perform : Task → World → World
  unfolding call_tool run
  perform (http headers endpoint) = after (router host state headers endpoint)
  perform (callback p) =
      after (handle_callback host state.token_manager (record { slot = none; done = false }) p)
  perform (round days) = after (refresh_stale host state.token_manager days)
  perform (tool t) = call_tool t
  perform (command c) = run c
  perform restart = reopen

-- The states that the program can reach from an empty database, with any configuration at each step.
pub data Reach (host : Host) (codec : GraphCodec) : World → Type 0 where
  start : Reach host codec first_world
  next :
      (config : Config) (task : Task) {w : World}
      → Reach host codec w
      → Reach host codec (perform host (build host codec config) task w)
