-- ===== src/System/Returns.antt =====
-- Every task of the program (src/api, src/auth/callback.rs, src/mcp, src/cli) comes to an end with a
-- value or an error.
use uni_mail.Common.{refl, true, String, inl, inr, some, none}
use uni_mail.Error.{Outcome}
use uni_mail.Exec.{World}
use uni_mail.Exec.Calm.{NoPanic}
use uni_mail.Exec.Returns.{
  IsFree, Returns, Returns-bind_known, Returns-lift, Returns-lift_err, Returns-bind, returns_rules,
}
use uni_mail.Host.{Host}
use uni_mail.Storage.Crypto.Laws.{HasCipher}
use uni_mail.Storage.Free.{stores-IsFree}
use uni_mail.Storage.Returns.{list-Returns, get-Returns, accounts_delete-Returns}
use uni_mail.Config.{Config}
use uni_mail.Auth.Returns.{HasReliableCrates}
use uni_mail.Auth.Batch.Returns.{refresh_all-Returns, refresh_stale-Returns, disconnect-Returns}
use uni_mail.Auth.Callback.{CallbackParams, outcome}
use uni_mail.Auth.Callback.Laws.{handle_callback_lem}
use uni_mail.Auth.Flow.Returns.{
  AlwaysReturns, begin_flow-Returns, complete_callback-Returns, handle_callback-Returns,
}
use uni_mail.Provider.Graph.Message.{GraphCodec}
use uni_mail.Provider.Graph.Consistency.{graph_provider-IsKeeping, graph_resolver-Keeps}
use uni_mail.Provider.Graph.Returns.{
  IsAnswering, graph_resolver-Returns, graph_provider-IsAnswering, aggregate-Returns,
}
use uni_mail.Api.Auth.{Headers}
use uni_mail.Api.Auth.Laws.{middleware_cases}
use uni_mail.Api.Routes
use uni_mail.Api.Routes.{AppState}
use uni_mail.Api.Router.{Endpoint, handler, router}
use uni_mail.Api.State.{build, build_manager}
use uni_mail.Mcp
use uni_mail.Mcp.Returns.{resolve_in-Returns, as_tool-Returns, with_account-Returns}
use uni_mail.Cli
use uni_mail.System.{Tool, Command, Task, Reach}
use uni_mail.System.Ends.{ToolEnds, CommandEnds, TaskEnds, IsSound}
use uni_mail.System.Keeping.{perform_keeps}

module _ {host : Host} (laws : HasReliableCrates host) (state : AppState)
    (cipher : HasCipher host state.token_manager.key) (answering : IsAnswering state.provider)
    (resolver : AlwaysReturns state.token_manager.profile) where
  handler-Returns :
      (endpoint : Endpoint) (tenant : String) → Returns (handler host state endpoint tenant)
  unfolding handler Routes.list_accounts Routes.connect_account Routes.disconnect_account
      Routes.list_emails Routes.get_email Routes.send_email Routes.unified_inbox
  handler-Returns Endpoint.list_accounts tenant = search (returns_rules, list-Returns) depth 20
  handler-Returns Endpoint.connect_account tenant =
      search (returns_rules, begin_flow-Returns laws state.token_manager cipher) depth 20
  handler-Returns (Endpoint.disconnect_account id) tenant =
      search (returns_rules, get-Returns, disconnect-Returns laws state.token_manager) depth 20
  handler-Returns (Endpoint.list_emails id limit query) tenant =
      search (returns_rules, get-Returns, answering.lists) depth 20
  handler-Returns (Endpoint.get_email id message_id) tenant =
      search (returns_rules, get-Returns, answering.gets) depth 20
  handler-Returns (Endpoint.send_email id body) tenant =
      search (returns_rules, get-Returns, answering.sends) depth 20
  handler-Returns (Endpoint.unified_inbox limit) tenant =
      search (returns_rules, list-Returns, aggregate-Returns host state.provider answering) depth 20

  router_ends :
      (headers : Headers) (endpoint : Endpoint) (w : World)
      → IsFree w.db
      → NoPanic (router host state headers endpoint w).0
  unfolding router
  router_ends headers endpoint w free =
      elim (middleware_cases state.config headers (handler host state endpoint) w) [
        | inl (tenant, known, e) ↦ rw e ((handler-Returns endpoint tenant).returns w free)
        | inr e ↦ rw e tt
      ]

  tool_ends : (t : Tool) (w : World) → IsFree w.db → ToolEnds host state t w
  unfolding ToolEnds Mcp.list_accounts Mcp.list_emails Mcp.search_emails Mcp.read_email
      Mcp.send_email Mcp.unified_inbox
  tool_ends Tool.list_accounts =
      let h : Returns (Mcp.list_accounts host state) =
        search (returns_rules, list-Returns) depth 20 in
      h.returns
  tool_ends (Tool.list_emails account limit) =
      (with_account-Returns host state account _ (λ a. answering.lists a _ _)).returns
  tool_ends (Tool.search_emails account query) =
      (with_account-Returns host state account _ (λ a. answering.lists a _ _)).returns
  tool_ends (Tool.read_email account id) =
      (with_account-Returns host state account _ (λ a. answering.gets a id)).returns
  tool_ends (Tool.send_email account to subject body) =
      (with_account-Returns host state account _ (λ a. answering.sends a to subject body)).returns
  tool_ends (Tool.unified_inbox limit) =
      let h : Returns (Mcp.unified_inbox host state limit) =
        search
          (
            returns_rules,
            list-Returns,
            as_tool-Returns,
            aggregate-Returns host state.provider answering,
          )
          depth 20 in
      h.returns

  -- The redirect that has been handled leaves its outcome.
  serve_callback_once-Returns :
      (arrived : Outcome String CallbackParams)
      → NoPanic arrived
      → Returns (Cli.serve_callback_once host state arrived)
  unfolding Cli.serve_callback_once
  serve_callback_once-Returns arrived h = Returns-bind _ _ (Returns-lift_err _ arrived h) (λ p.
      Returns-bind_known _ _ (handle_callback-Returns laws state.token_manager resolver _ p)
        (λ w (shown, end) free e. Returns-lift (outcome end) (
          let (same, signalled, status) =
            handle_callback_lem host state.token_manager (record { slot = some none; done = true })
              end p w shown none refl e in
          rw same
            ((complete_callback-Returns laws state.token_manager resolver p).returns w free))))

  command_ends :
      (c : Command) (w : World)
      → IsSound host (Task.command c)
      → IsFree w.db
      → CommandEnds host state c w
  unfolding CommandEnds IsSound Cli.add_account Cli.list_accounts Cli.remove_account Cli.refresh_all
  command_ends (Command.add_account tenant address arrived) w (known, redirect) =
      let h : Returns (Cli.add_account host state tenant address arrived) =
        search
          (
            returns_rules,
            Returns-lift,
            begin_flow-Returns laws state.token_manager cipher,
            serve_callback_once-Returns,
            known,
            redirect,
          )
          depth 20 in
      h.returns w
  command_ends (Command.list_accounts tenant) w s =
      let h : Returns (Cli.list_accounts host state tenant) =
        search (returns_rules, list-Returns) depth 20 in
      h.returns w
  command_ends (Command.remove_account account tenant) w s =
      let h : Returns (Cli.remove_account host state account tenant) =
        search (returns_rules, resolve_in-Returns, accounts_delete-Returns) depth 20 in
      h.returns w
  command_ends Command.refresh_all w s =
      let h : Returns (Cli.refresh_all host state) =
        search (returns_rules, refresh_all-Returns laws state.token_manager) depth 20 in
      h.returns w

  task_ends :
      (task : Task) (w : World) → IsSound host task → IsFree w.db → TaskEnds host state task w
  unfolding TaskEnds IsSound
  task_ends (Task.http headers endpoint) w s = router_ends headers endpoint w
  task_ends (Task.callback p) w s =
      (handle_callback-Returns laws state.token_manager resolver _ p).returns w
  task_ends (Task.round days) w timely =
      (refresh_stale-Returns laws state.token_manager days timely).returns w
  task_ends (Task.tool t) w s = tool_ends t w
  task_ends (Task.command c) w s = command_ends c w s
  task_ends Task.restart w s = λ free. tt

-- The lock of the database is free in every state that the program reaches.
reachable-IsFree : (host : Host) (codec : GraphCodec) {w : World} → Reach host codec w → IsFree w.db
unfolding build build_manager
reachable-IsFree host codec Reach.start = refl
reachable-IsFree host codec (Reach.next config task {w} before) =
    let stores = stores-IsFree host config.encryption_key in
    perform_keeps host (build host codec config) stores
      (λ a. graph_provider-IsKeeping host _ a (stores.upsert a.id))
      (graph_resolver-Keeps host codec config.graph_base_url) (λ v h. refl) task w
      (reachable-IsFree host codec before)

-- Where the crates return wherever they may fail (reading a profile included), no answered lifetime, no
-- clock time with five minutes added and no threshold of a round leads past chrono's times, the cipher
-- works as documented with the configured key, and the callback address and the redirect given to
-- `add_account` are values or errors, no task panics: in every state that the program reaches, every
-- HTTP request, redirect, tool, subcommand and round of the refresh loop comes to an end with a value
-- or an error, whatever the stores, the token endpoint and Graph answer.
pub reachable_ends :
    {host : Host} (laws : HasReliableCrates host) (codec : GraphCodec)
    (reads : (text : String) → NoPanic (codec.read_profile text)) (config : Config) (task : Task)
    {w : World}
    → Reach host codec w
    → HasCipher host config.encryption_key
    → IsSound host task
    → TaskEnds host (build host codec config) task w
unfolding build build_manager
reachable_ends {host} laws codec reads config task {w} life cipher sound =
    task_ends laws (build host codec config) cipher (graph_provider-IsAnswering laws _)
      (graph_resolver-Returns laws codec reads config.graph_base_url) task w sound
      (reachable-IsFree host codec life)
