-- ===== src/System/Ends.antt =====
-- What it means that a task of the program (src/api, src/auth/callback.rs, src/mcp, src/cli) comes to
-- an end with a value or an error, and what such a task may bring with it.
use uni_mail.Common.{false, none}
use uni_mail.Exec.{World}
use uni_mail.Exec.Calm.{NoPanic}
use uni_mail.Host.{Host}
use uni_mail.Auth.Batch.{refresh_stale}
use uni_mail.Auth.Batch.Returns.{IsTimely}
use uni_mail.Auth.Callback.{handle_callback}
use uni_mail.Api.Routes.{AppState}
use uni_mail.Api.Router.{router}
use uni_mail.Mcp
use uni_mail.Cli
use uni_mail.System.{Tool, Command, Task}

-- What the tools, the subcommands and the tasks give back is no panic.
module _ (host : Host) (state : AppState) where
  unfoldable pub ToolEnds : Tool → World → Type 0
  ToolEnds Tool.list_accounts w = NoPanic (Mcp.list_accounts host state w).0
  ToolEnds (Tool.list_emails account limit) w =
      NoPanic (Mcp.list_emails host state account limit w).0
  ToolEnds (Tool.search_emails account query) w =
      NoPanic (Mcp.search_emails host state account query w).0
  ToolEnds (Tool.read_email account id) w = NoPanic (Mcp.read_email host state account id w).0
  ToolEnds (Tool.send_email account to subject body) w =
      NoPanic (Mcp.send_email host state account to subject body w).0
  ToolEnds (Tool.unified_inbox limit) w = NoPanic (Mcp.unified_inbox host state limit w).0

  unfoldable pub CommandEnds : Command → World → Type 0
  CommandEnds (Command.add_account tenant address arrived) w =
      NoPanic (Cli.add_account host state tenant address arrived w).0
  CommandEnds (Command.list_accounts tenant) w = NoPanic (Cli.list_accounts host state tenant w).0
  CommandEnds (Command.remove_account account tenant) w =
      NoPanic (Cli.remove_account host state account tenant w).0
  CommandEnds Command.refresh_all w = NoPanic (Cli.refresh_all host state w).0

  unfoldable pub TaskEnds : Task → World → Type 0
  unfolding ToolEnds CommandEnds
  TaskEnds (Task.http headers endpoint) w = NoPanic (router host state headers endpoint w).0
  TaskEnds (Task.callback p) w =
      NoPanic
        (handle_callback host state.token_manager (record { slot = none; done = false }) p w).0
  TaskEnds (Task.round days) w = NoPanic (refresh_stale host state.token_manager days w).0
  TaskEnds (Task.tool t) w = ToolEnds t w
  TaskEnds (Task.command c) w = CommandEnds c w
  TaskEnds Task.restart w = Unit

-- What comes with a task from outside: the threshold of a round keeps within chrono's times, and the
-- callback address and the redirect of `add_account` are values or errors.
unfoldable pub IsSound : Host → Task → Type 0
IsSound host (Task.round days) = IsTimely host days
IsSound host (Task.command (Command.add_account tenant address arrived)) =
    NoPanic address × NoPanic arrived
IsSound host _ = Unit
