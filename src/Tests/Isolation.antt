-- ===== src/Tests/Isolation.antt =====
-- Two tenants on the machine: one of them acts, and the other one keeps its account and its token.
use uni_mail.Common.{refl, none, some, [], ◌∷◌}
use uni_mail.Exec.{World}
use uni_mail.Storage.Isolation.{SameElsewhere}
use uni_mail.Storage.Isolation.Owners.{HasOrder}
use uni_mail.Api.Auth.{resolve_tenant, extract_api_key}
use uni_mail.Api.Router.{Endpoint}
use uni_mail.Api.State.{build}
use uni_mail.Cli.{tenant_or_default}
use uni_mail.System
use uni_mail.System.{Task, Command, perform}
use uni_mail.System.Isolation.Tasks.{RunsFor, tenants_isolated}
use uni_mail.Tests.Api.{settings}
use uni_mail.Tests.Provider.{codec}
use uni_mail.Tests.Machine.{machine}
use uni_mail.Tests.System.{life, begin, redirect}

machine-HasOrder : HasOrder machine
machine-HasOrder = record { sorts = λ P rows h. h }

-- The default tenant begins a flow over HTTP, and then tries to remove the account of the other one.
abbrev connect : Task
connect = Task.http (("x-api-key", some "k2") ∷ []) Endpoint.connect_account

abbrev remove : Task
remove = Task.command (Command.remove_account "eve@example.org" none)

abbrev later : World
later =
    let parts = build machine codec settings in
    perform machine parts remove (perform machine parts connect life)

tenants_isolated_example : SameElsewhere "default" life.db later.db
unfolding build resolve_tenant extract_api_key tenant_or_default
tenants_isolated_example =
    tenants_isolated machine codec machine-HasOrder "default"
      (System.Reach.next settings Task.restart
        (System.Reach.next settings redirect (System.Reach.next settings begin System.Reach.start)))
      (RunsFor.asked settings remove (RunsFor.asked settings connect RunsFor.idle (λ t known. cc))
        refl)
