-- ===== src/System/Isolation/Tasks.antt =====
-- Tenants that share the program: what is asked of it in one tenant's name, over HTTP, by OAuth
-- redirects, MCP tools and subcommands (src/api, src/auth/callback.rs, src/mcp, src/cli).
use uni_mail.Common.{◌≡◌, ℕ, String, [], ◌∷◌, Option, none, some, true, refl, inl, inr}
use uni_mail.Error.{Outcome, ok, err, panic, AppError}
use uni_mail.Exec.{World, lift, pure, ◌>>=◌, ◌>>◌}
use uni_mail.Exec.Keeps.{
  Keeps, KeepsAt, KeepsAt-bind, KeepsAt-chain, Keeps-lift, Keeps-pure, keeps_rules,
}
use uni_mail.Host.{Host}
use uni_mail.Storage.Consistency.{IsConsistent}
use uni_mail.Storage.Isolation.{
  SameElsewhere, SameElsewhere-refl, SameElsewhere-trans, upsert-SameElsewhere,
}
use uni_mail.Storage.Isolation.Owners.{HasOrder}
use uni_mail.Storage.Reads.{list-Keeps}
use uni_mail.Storage.Consistency.Stores.{stores-IsConsistent}
use uni_mail.Auth.Batch.Keeping.{begin_flow-Keeps}
use uni_mail.Auth.Flow.{begin_flow}
use uni_mail.Auth.Flow.Isolation.{IsIsolated, IsBegunBy, handle_callback-IsIsolated}
use uni_mail.Auth.Flow.Keeping.{KeepsDatabase}
use uni_mail.Auth.Callback.{CallbackParams, CallbackState, Page, handle_callback, outcome}
use uni_mail.Config.{Config}
use uni_mail.Provider.Graph.Message.{GraphCodec}
use uni_mail.Provider.Graph.Consistency.{graph_provider-IsKeeping, graph_resolver-Keeps}
use uni_mail.Api.Auth.{Headers, resolve_tenant, extract_api_key}
use uni_mail.Api.Auth.Laws.{middleware_cases}
use uni_mail.Api.Routes.{AppState}
use uni_mail.Api.Router.{Endpoint, handler, router}
use uni_mail.Api.State.{build, build_manager}
use uni_mail.Mcp
use uni_mail.Cli
use uni_mail.System.{Command, Task, run, perform, after, Reach}
use uni_mail.System.Consistency.{reachable-IsConsistent}
use uni_mail.System.Isolation.Calls.{IsIsolating, begin_flow-SameElsewhere}
use uni_mail.System.Isolation.Handlers.{handler_isolates}
use uni_mail.System.Isolation.Tools.{call_tool_isolates, remove_account_isolates}

-- If the redirect names a flow, the tenant began it.
abbrev pub ComesFor : String → World → CallbackParams → Type 0
ComesFor tenant w p = (state : String) → p.state ≡ some state → IsBegunBy tenant w.db state

-- What is asked in a tenant's name: the tenant of the key, of the flow, of the tools, or the one that
-- is given. The refreshes of all tenants' tokens are nobody's.
abbrev pub ActsFor : Host → AppState → String → World → Task → Type 0
ActsFor host state tenant w (Task.http headers endpoint) =
    (t : String) → resolve_tenant state.config (extract_api_key headers) ≡ some t → t ≡ tenant
ActsFor host state tenant w (Task.callback p) = ComesFor tenant w p
ActsFor host state tenant w (Task.round days) = ⊥
ActsFor host state tenant w (Task.tool t) = Mcp.tenant host state ≡ tenant
ActsFor host state tenant w (Task.command (Command.add_account given address arrived)) =
    (Cli.tenant_or_default state given ≡ tenant)
    × ((p : CallbackParams)
        → arrived ≡ ok p
        → ComesFor tenant (after (begin_flow host state.token_manager tenant) w) p)
ActsFor host state tenant w (Task.command (Command.list_accounts given)) =
    Cli.tenant_or_default state given ≡ tenant
ActsFor host state tenant w (Task.command (Command.remove_account account given)) =
    Cli.tenant_or_default state given ≡ tenant
ActsFor host state tenant w (Task.command Command.refresh_all) = ⊥
ActsFor host state tenant w Task.restart = Unit {0}

module _ (host : Host) (order : HasOrder host) (state : AppState)
    (calls : IsIsolating state.provider)
    (resolves : (tenant : String) (w : World)
      → KeepsDatabase (IsIsolated tenant w.db) state.token_manager.profile)
    (tenant : String) (w : World) (consistent : IsConsistent w.db) where
  router_isolates :
      (headers : Headers) (endpoint : Endpoint)
      → ((t : String) → resolve_tenant state.config (extract_api_key headers) ≡ some t → t ≡ tenant)
      → SameElsewhere tenant w.db (router host state headers endpoint w).1.db
  unfolding router
  router_isolates headers endpoint owner =
      elim (middleware_cases state.config headers (handler host state endpoint) w) [
        | inl (t, known, e) ↦
            rw (e, owner t known)
              (handler_isolates host order state calls tenant w consistent.accounts_distinct
                endpoint).at
        | inr e ↦ rw e (SameElsewhere-refl tenant w.db)
      ]

  cli_callback_isolates :
      (p : CallbackParams)
      → ComesFor tenant w p
      → KeepsAt (SameElsewhere tenant w.db) w (
          handle_callback host state.token_manager (record { slot = some none; done = true }) p
          >>= λ (r : Page × CallbackState). lift (outcome r.1))
  cli_callback_isolates p begun =
      let cli : CallbackState = record { slot = some none; done = true } in
      let m = state.token_manager in
      let h =
        handle_callback-IsIsolated host m tenant w (resolves tenant w) consistent p begun cli in
      KeepsAt-bind w (handle_callback host m cli p) (λ r. lift (outcome r.1))
        (record { at = h.at.1 }) (λ r _. Keeps-lift (outcome r.1))

  serve_isolates :
      (arrived : Outcome String CallbackParams)
      → ((p : CallbackParams) → arrived ≡ ok p → ComesFor tenant w p)
      → SameElsewhere tenant w.db (Cli.serve_callback_once host state arrived w).1.db
  unfolding Cli.serve_callback_once
  serve_isolates (ok p) begun = (cli_callback_isolates p (begun p refl)).at
  serve_isolates (err e) begun = SameElsewhere-refl tenant w.db
  serve_isolates (panic text) begun = SameElsewhere-refl tenant w.db

module _ (host : Host) (order : HasOrder host) (state : AppState)
    (calls : IsIsolating state.provider)
    (resolves : (tenant : String) (w : World)
      → KeepsDatabase (IsIsolated tenant w.db) state.token_manager.profile)
    (tenant : String) (w : World) (consistent : IsConsistent w.db) where
  -- What follows once the flow is begun.
  connect_isolates :
      (v : World) (url : String) (address : Outcome AppError (String × ℕ))
      (arrived : Outcome String CallbackParams)
      → IsConsistent v.db
      → ((p : CallbackParams) → arrived ≡ ok p → ComesFor tenant v p)
      → KeepsAt (SameElsewhere tenant v.db) v (
          lift address
          >> (Cli.serve_callback_once host state arrived >>= λ account.
              pure (url ∷ Cli.connected_line account ∷ [])))
  connect_isolates v url (ok a) arrived consistent' begun =
      let served : KeepsAt (SameElsewhere tenant v.db) v
          (Cli.serve_callback_once host state arrived) =
        record {
          at = serve_isolates host order state calls resolves tenant v consistent' arrived begun;
        } in
      let k =
        KeepsAt-bind v (Cli.serve_callback_once host state arrived)
          (λ account. pure (url ∷ Cli.connected_line account ∷ [])) served
          (λ account _. Keeps-pure (url ∷ Cli.connected_line account ∷ [])) in
      record { at = k.at }
  connect_isolates v url (err e) arrived consistent' begun = record {
    at = SameElsewhere-refl tenant v.db;
  }
  connect_isolates v url (panic text) arrived consistent' begun = record {
    at = SameElsewhere-refl tenant v.db;
  }

  add_account_isolates :
      (given : Option String) (address : Outcome AppError (String × ℕ))
      (arrived : Outcome String CallbackParams)
      → ActsFor host state tenant w (Task.command (Command.add_account given address arrived))
      → KeepsAt (SameElsewhere tenant w.db) w (Cli.add_account host state given address arrived)
  unfolding Cli.add_account
  add_account_isolates given address arrived (same, begun) =
      let m = state.token_manager in
      let v = (begin_flow host m tenant w).1 in
      let here =
        (begin_flow-SameElsewhere host m tenant w.db).at w (SameElsewhere-refl tenant w.db) in
      let well =
        (begin_flow-Keeps host m (stores-IsConsistent host m.key) tenant).at w consistent in
      rw same (
        KeepsAt-chain w (begin_flow host m tenant) _ (record { at = here })
          (λ url _. record {
            at =
                SameElsewhere-trans tenant w.db v.db _ here
                  (connect_isolates v url address arrived well begun).at;
          }))

  perform_isolates :
      (task : Task)
      → ActsFor host state tenant w task
      → SameElsewhere tenant w.db (perform host state task w).db
  unfolding perform run Cli.list_accounts
  perform_isolates (Task.http headers endpoint) acts =
      router_isolates host order state calls resolves tenant w consistent headers endpoint acts
  perform_isolates (Task.callback p) acts =
      (handle_callback-IsIsolated host state.token_manager tenant w (resolves tenant w) consistent p
        acts _).at.1
  perform_isolates (Task.round days) acts = absurd acts
  perform_isolates (Task.tool t) acts =
      call_tool_isolates host order state calls tenant w consistent.accounts_distinct t acts
  perform_isolates (Task.command (Command.add_account given address arrived)) acts =
      (add_account_isolates given address arrived acts).at
  perform_isolates (Task.command (Command.list_accounts given)) acts =
      let h : Keeps (SameElsewhere tenant w.db) (Cli.list_accounts host state given) =
        search (keeps_rules, list-Keeps) depth 20 in
      h.at w (SameElsewhere-refl tenant w.db)
  perform_isolates (Task.command (Command.remove_account account given)) acts =
      (remove_account_isolates host order state calls tenant w consistent.accounts_distinct account
        given acts).at
  perform_isolates (Task.command Command.refresh_all) acts = absurd acts
  perform_isolates Task.restart acts = record { accounts = refl; tokens = λ j h. refl }

-- The states that are reached by what is asked in one tenant's name, under any configuration.
pub data RunsFor (host : Host) (codec : GraphCodec) (tenant : String) (w : World)
    : World → Type 0 where
  idle : RunsFor host codec tenant w w
  asked :
      (config : Config) (task : Task) {v : World}
      → RunsFor host codec tenant w v
      → ActsFor host (build host codec config) tenant v task
      → RunsFor host codec tenant w (perform host (build host codec config) task v)

RunsFor-Reach :
    {host : Host} {codec : GraphCodec} {tenant : String} {w v : World}
    → Reach host codec w
    → RunsFor host codec tenant w v
    → Reach host codec v
RunsFor-Reach before RunsFor.idle = before
RunsFor-Reach before (RunsFor.asked config task r acts) =
    Reach.next config task (RunsFor-Reach before r)

-- Tenant isolation: from a state that the program has reached, whatever is asked in the name of one
-- tenant, in any number and order (HTTP requests with a key of the tenant or that are refused, redirects of
-- flows that it began, tools where it is the default tenant, its subcommands, restarts), and whether
-- it succeeds, fails or panics, leaves the accounts of all other tenants as they are, row by row, and
-- the token of each of these accounts. `ORDER BY` returns no row but those that it orders. The
-- refreshes that renew the tokens of all tenants are not asked in a tenant's name.
pub tenants_isolated :
    (host : Host) (codec : GraphCodec) (order : HasOrder host) (tenant : String) {w v : World}
    → Reach host codec w
    → RunsFor host codec tenant w v
    → SameElsewhere tenant w.db v.db
unfolding build build_manager
tenants_isolated host codec order tenant {w} before RunsFor.idle = SameElsewhere-refl tenant w.db
tenants_isolated host codec order tenant {w} before (RunsFor.asked config task {v} r acts) =
    SameElsewhere-trans tenant w.db v.db _ (tenants_isolated host codec order tenant before r) (
      perform_isolates host order (build host codec config)
        (λ t db a foreign.
          graph_provider-IsKeeping host _ a
            (λ token. upsert-SameElsewhere host t a.id db foreign _ token))
        (λ t u. graph_resolver-Keeps host codec config.graph_base_url) tenant v
        (reachable-IsConsistent host codec (RunsFor-Reach before r)) task acts)
