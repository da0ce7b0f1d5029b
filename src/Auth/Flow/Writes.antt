-- ===== src/Auth/Flow/Writes.antt =====
-- Invariants of the database under a flow that completes, and under the callback it comes by
-- (src/auth/token.rs, src/auth/callback.rs).
use uni_mail.Common.{String, Option, none, some}
use uni_mail.Error.{Outcome, AppError}
use uni_mail.Exec.{Database}
use uni_mail.Exec.Keeps.{Keeps, keeps_rules}
use uni_mail.Host.{Host}
use uni_mail.Storage.Models.{Account}
use uni_mail.Storage.Tokens.{StoredToken}
use uni_mail.Storage.Keeping.{KeepsStores}
use uni_mail.Storage.Reads.{get-Keeps, get_by_email-Keeps}
use uni_mail.Auth.Oauth.{TokenSet}
use uni_mail.Auth.Token.{ResolvedIdentity, TokenManager}
use uni_mail.Auth.Keeping.{exchange_code-Keeps, to_stored-Keeps}
use uni_mail.Auth.Flow.Keeping.{KeepsDatabase, connected_account-Keeps, page-Keeps}
use uni_mail.Auth.Flow.{create_missing, write_connection, store_connection, complete_flow}
use uni_mail.Auth.Callback.{
  CallbackState, CallbackParams, completed, refused, complete_callback, handle_callback,
}

module _ {P : Database → Type 0} (host : Host) (m : TokenManager)
    (stores : KeepsStores host m.key P) where
  pub write_connection-Keeps :
      (a : Account) (stored : StoredToken) (known : Outcome AppError Account)
      → Keeps P (write_connection host m a stored known)
  unfolding write_connection create_missing
  write_connection-Keeps a stored known =
      search (keeps_rules, stores.create, stores.upsert) depth 20

  store_connection-Keeps :
      (tenant : String) (identity : ResolvedIdentity) (set : TokenSet) (token : String)
      → Keeps P (store_connection host m tenant identity set token)
  unfolding store_connection
  store_connection-Keeps tenant identity set token =
      search
        (
          keeps_rules, get_by_email-Keeps, connected_account-Keeps, to_stored-Keeps, get-Keeps,
          write_connection-Keeps,
        )
        depth 20

  module _ (resolver : KeepsDatabase P m.profile) where
    complete_flow-Keeps : (code state : String) → Keeps P (complete_flow host m code state)
    unfolding complete_flow
    complete_flow-Keeps code state =
        search (keeps_rules, stores.take, exchange_code-Keeps, resolver, store_connection-Keeps)
          depth 20

    completed-Keeps : (code state : Option String) → Keeps P (completed host m code state)
    completed-Keeps none state = search keeps_rules
    completed-Keeps (some code) none = search keeps_rules
    completed-Keeps (some code) (some state) = complete_flow-Keeps code state

    refused-Keeps : (p : CallbackParams) (error : Option String) → Keeps P (refused host m p error)
    refused-Keeps p none = completed-Keeps p.code p.state
    refused-Keeps p (some error) = search keeps_rules

    complete_callback-Keeps : (p : CallbackParams) → Keeps P (complete_callback host m p)
    unfolding complete_callback
    complete_callback-Keeps p = refused-Keeps p p.error

    pub handle_callback-Keeps :
        (st : CallbackState) (p : CallbackParams) → Keeps P (handle_callback host m st p)
    unfolding handle_callback
    handle_callback-Keeps st p = search (keeps_rules, complete_callback-Keeps, page-Keeps) depth 20
