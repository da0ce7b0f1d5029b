-- ===== src/System/Isolation/Handlers.antt =====
-- The handlers of src/api/routes.rs, run for one tenant, leave the other tenants alone.
use uni_mail.Common.{String}
use uni_mail.Error.{AppError}
use uni_mail.Exec.{World, Exec}
use uni_mail.Exec.Keeps.{KeepsAt, KeepsAt-bind, Keeps-KeepsAt, Keeps-pure, Keeps-bind}
use uni_mail.Host.{Host}
use uni_mail.Storage.Accounts.{conflicts}
use uni_mail.Storage.Consistency.{IsDistinct}
use uni_mail.Storage.Isolation.{SameElsewhere, SameElsewhere-refl}
use uni_mail.Storage.Reads.{list-Keeps}
use uni_mail.Storage.Isolation.Owners.{HasOrder}
use uni_mail.Provider.Graph.Consistency.{aggregate-Keeps}
use uni_mail.Api.Routes
use uni_mail.Api.Routes.{AppState, page_limit}
use uni_mail.Api.Router.{Endpoint, Body, as_body, handler}
use uni_mail.System.Isolation.Calls.{
  IsIsolating, begin_flow-SameElsewhere, disconnect-SameElsewhere, found_then, listed_then,
}

module _ (host : Host) (order : HasOrder host) (state : AppState)
    (calls : IsIsolating state.provider) (tenant : String) (w : World)
    (keys : IsDistinct conflicts w.accounts) where
  replied :
      {A : Type 0} (f : A → Body) (m : Exec AppError A)
      → KeepsAt (SameElsewhere tenant w.db) w m
      → KeepsAt (SameElsewhere tenant w.db) w (as_body f m)
  replied f m h = KeepsAt-bind w m _ h (λ a _. Keeps-pure _)

  pub handler_isolates :
      (endpoint : Endpoint)
      → KeepsAt (SameElsewhere tenant w.db) w (handler host state endpoint tenant)
  unfolding handler Routes.list_accounts Routes.connect_account Routes.disconnect_account
      Routes.list_emails Routes.get_email Routes.send_email Routes.unified_inbox
  handler_isolates Endpoint.list_accounts =
      replied _ _ (Keeps-KeepsAt w _ (SameElsewhere-refl tenant w.db) (list-Keeps host tenant))
  handler_isolates Endpoint.connect_account = replied _ _ (
      Keeps-KeepsAt w _ (SameElsewhere-refl tenant w.db)
        (begin_flow-SameElsewhere host state.token_manager tenant w.db))
  handler_isolates (Endpoint.disconnect_account id) = replied _ _ (
      found_then host order state calls tenant w keys id _ (λ a owner foreign.
        Keeps-bind _ _
          (disconnect-SameElsewhere host state.token_manager tenant w.db a owner foreign)
          (λ _. Keeps-pure _)))
  handler_isolates (Endpoint.list_emails id limit query) = replied _ _ (
      found_then host order state calls tenant w keys id _
        (λ a owner foreign. (calls tenant w.db a foreign).lists _ _))
  handler_isolates (Endpoint.get_email id message_id) = replied _ _ (
      found_then host order state calls tenant w keys id _
        (λ a owner foreign. (calls tenant w.db a foreign).gets _))
  handler_isolates (Endpoint.send_email id body) = replied _ _ (
      found_then host order state calls tenant w keys id _ (λ a owner foreign.
        Keeps-bind _ _ ((calls tenant w.db a foreign).sends _ _ _) (λ _. Keeps-pure _)))
  handler_isolates (Endpoint.unified_inbox limit) = replied _ _ (
      listed_then host order state calls tenant w keys _
        (λ accounts h. aggregate-Keeps host state.provider accounts _ h))
