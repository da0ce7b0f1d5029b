-- ===== src/System/Keeping.antt =====
-- Invariants of the database under every task of the program (src/api, src/auth/callback.rs,
-- src/mcp, src/cli).
use uni_mail.Common.{ℕ, String, Option, List, [], ◌∷◌, All, inl, inr}
use uni_mail.Error.{Outcome, AppError}
use uni_mail.Exec.{World, Database, Exec}
use uni_mail.Exec.Keeps.{Keeps, keeps_rules}
use uni_mail.Host.{Host}
use uni_mail.Storage.Models.{Account}
use uni_mail.Storage.Keeping.{KeepsStores}
use uni_mail.Storage.Reads.{list-Keeps, get-Keeps}
use uni_mail.Auth.Batch.Keeping.{
  begin_flow-Keeps, refresh_all-Keeps, refresh_stale-Keeps, disconnect-Keeps,
}
use uni_mail.Auth.Callback.{CallbackParams}
use uni_mail.Auth.Flow.Keeping.{KeepsDatabase}
use uni_mail.Auth.Flow.Writes.{handle_callback-Keeps}
use uni_mail.Provider.{EmailProvider}
use uni_mail.Provider.Graph.Consistency.{IsKeeping, aggregate-Keeps}
use uni_mail.Api.Auth.{Headers}
use uni_mail.Api.Auth.Laws.{middleware_cases}
use uni_mail.Api.Routes
use uni_mail.Api.Routes.{AppState}
use uni_mail.Api.Router.{Endpoint, handler, router}
use uni_mail.Mcp
use uni_mail.Mcp.Keeping.{resolve_in-Keeps, or_tool_error-Keeps, as_tool-Keeps}
use uni_mail.Mcp.{
  or_tool_error, as_tool, or_by_email, resolve_in, resolve_account, with_account, CallToolResult,
  ErrorData,
}
use uni_mail.Cli
use uni_mail.System.{Tool, Command, Task, call_tool, run, perform, reopen}

All-IsKeeping :
    {P : Database → Type 0} {p : EmailProvider}
    → ((a : Account) → IsKeeping P p a)
    → (accounts : List Account) → All (IsKeeping P p) accounts
All-IsKeeping keeping [] = tt
All-IsKeeping keeping (a ∷ rest) = (keeping a, All-IsKeeping keeping rest)

module _ {P : Database → Type 0} (host : Host) (state : AppState)
    (stores : KeepsStores host state.token_manager.key P)
    (keeping : (a : Account) → IsKeeping P state.provider a)
    (resolver : KeepsDatabase P state.token_manager.profile) where
  lists-Keeps :
      (a : Account) (limit : ℕ) (query : Option String)
      → Keeps P (state.provider.list_messages a limit query)
  lists-Keeps a = (keeping a).lists

  gets-Keeps : (a : Account) (id : String) → Keeps P (state.provider.get_message a id)
  gets-Keeps a = (keeping a).gets

  sends-Keeps :
      (a : Account) (to subject body : String)
      → Keeps P (state.provider.send_message a to subject body)
  sends-Keeps a = (keeping a).sends

  handler-Keeps :
      (endpoint : Endpoint) (tenant : String) → Keeps P (handler host state endpoint tenant)
  unfolding handler Routes.list_accounts Routes.connect_account Routes.disconnect_account
      Routes.list_emails Routes.get_email Routes.send_email Routes.unified_inbox
  handler-Keeps Endpoint.list_accounts tenant = search (keeps_rules, list-Keeps) depth 20
  handler-Keeps Endpoint.connect_account tenant =
      search (keeps_rules, begin_flow-Keeps host state.token_manager stores) depth 20
  handler-Keeps (Endpoint.disconnect_account id) tenant =
      search (keeps_rules, get-Keeps, disconnect-Keeps host state.token_manager stores) depth 20
  handler-Keeps (Endpoint.list_emails id limit query) tenant =
      search (keeps_rules, get-Keeps, lists-Keeps) depth 20
  handler-Keeps (Endpoint.get_email id message_id) tenant =
      search (keeps_rules, get-Keeps, gets-Keeps) depth 20
  handler-Keeps (Endpoint.send_email id body) tenant =
      search (keeps_rules, get-Keeps, sends-Keeps) depth 20
  handler-Keeps (Endpoint.unified_inbox limit) tenant =
      search (keeps_rules, list-Keeps, aggregate-Keeps, All-IsKeeping) depth 20

  router-Keeps :
      (headers : Headers) (endpoint : Endpoint) → Keeps P (router host state headers endpoint)
  unfolding router
  router-Keeps headers endpoint = record {
    at = λ w h. elim (middleware_cases state.config headers (handler host state endpoint) w) [
      | inl (tenant, known, e) ↦ rw e ((handler-Keeps endpoint tenant).at w h)
      | inr e ↦ rw e h
    ];
  }

module _ {P : Database → Type 0} (host : Host) (state : AppState)
    (stores : KeepsStores host state.token_manager.key P)
    (keeping : (a : Account) → IsKeeping P state.provider a)
    (resolver : KeepsDatabase P state.token_manager.profile) where
  with_account-Keeps :
      {A : Type 0} (account : String) (call : Account → Exec AppError A)
      → ((a : Account) → Keeps P (call a))
      → Keeps P (with_account host state account call)
  unfolding with_account resolve_account
  with_account-Keeps account call h =
      search (keeps_rules, resolve_in-Keeps, or_tool_error-Keeps, as_tool-Keeps) depth 20

  call_tool_keeps : (t : Tool) (w : World) → P w.db → P (call_tool host state t w).db
  unfolding call_tool Mcp.list_accounts Mcp.list_emails Mcp.search_emails Mcp.read_email
      Mcp.send_email Mcp.unified_inbox
  call_tool_keeps Tool.list_accounts =
      let h : Keeps P (Mcp.list_accounts host state) = search (keeps_rules, list-Keeps) depth 20 in
      h.at
  call_tool_keeps (Tool.list_emails account limit) =
      (with_account-Keeps account _ (λ a. (keeping a).lists _ _)).at
  call_tool_keeps (Tool.search_emails account query) =
      (with_account-Keeps account _ (λ a. (keeping a).lists _ _)).at
  call_tool_keeps (Tool.read_email account id) =
      (with_account-Keeps account _ (λ a. (keeping a).gets id)).at
  call_tool_keeps (Tool.send_email account to subject body) =
      (with_account-Keeps account _ (λ a. (keeping a).sends to subject body)).at
  call_tool_keeps (Tool.unified_inbox limit) =
      let h : Keeps P (Mcp.unified_inbox host state limit) =
        search (keeps_rules, list-Keeps, as_tool-Keeps, aggregate-Keeps, All-IsKeeping) depth 20 in
      h.at

  serve_callback_once-Keeps :
      (arrived : Outcome String CallbackParams)
      → Keeps P (Cli.serve_callback_once host state arrived)
  unfolding Cli.serve_callback_once
  serve_callback_once-Keeps arrived =
      search (keeps_rules, handle_callback-Keeps host state.token_manager stores resolver) depth 20

  run_keeps : (c : Command) (w : World) → P w.db → P (run host state c w).db
  unfolding run Cli.add_account Cli.list_accounts Cli.remove_account Cli.refresh_all
  run_keeps (Command.add_account tenant address arrived) =
      let h : Keeps P (Cli.add_account host state tenant address arrived) =
        search
          (keeps_rules, begin_flow-Keeps host state.token_manager stores, serve_callback_once-Keeps)
          depth 20 in
      h.at
  run_keeps (Command.list_accounts tenant) =
      let h : Keeps P (Cli.list_accounts host state tenant) =
        search (keeps_rules, list-Keeps) depth 20 in
      h.at
  run_keeps (Command.remove_account account tenant) =
      let h : Keeps P (Cli.remove_account host state account tenant) =
        search (keeps_rules, resolve_in-Keeps, stores.accounts_delete) depth 20 in
      h.at
  run_keeps Command.refresh_all =
      let h : Keeps P (Cli.refresh_all host state) =
        search (keeps_rules, refresh_all-Keeps host state.token_manager stores) depth 20 in
      h.at

  pub perform_keeps :
      (reopens : (w : World) → P w.db → P (reopen w).db) (task : Task) (w : World)
      → P w.db
      → P (perform host state task w).db
  unfolding perform
  perform_keeps reopens (Task.http headers endpoint) =
      (router-Keeps host state stores keeping resolver headers endpoint).at
  perform_keeps reopens (Task.callback p) =
      (handle_callback-Keeps host state.token_manager stores resolver _ p).at
  perform_keeps reopens (Task.round days) =
      (refresh_stale-Keeps host state.token_manager stores days).at
  perform_keeps reopens (Task.tool t) = call_tool_keeps t
  perform_keeps reopens (Task.command c) = run_keeps c
  perform_keeps reopens Task.restart = reopens
