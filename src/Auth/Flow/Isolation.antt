-- ===== src/Auth/Flow/Isolation.antt =====
-- A flow that completes (`complete_flow` of src/auth/token.rs) and the redirect that it comes by
-- write for the tenant that began it.
use uni_mail.Common.{◌≡◌, refl, sym, ap, ◌∙◌, String, Option, none, some, find}
use uni_mail.Error.{Outcome, ok, err, panic, AppError}
use uni_mail.Exec.{World, Database, pure, ◌>>=◌}
use uni_mail.Exec.Inversion.{attempt-eq-ok, map_err-eq-ok}
use uni_mail.Exec.Keeps.{
  Keeps, Keeps-bind, Keeps-bind_known, Keeps-both, Keeps-attempt, Keeps-pure, KeepsAt, KeepsAt-bind,
  Keeps-KeepsAt, KeepsAt-attempt, Keeps-on_error, Keeps-or_error, Keeps-fail,
}
use uni_mail.Host.{Host}
use uni_mail.Storage.Models.{Account, FlowRow}
use uni_mail.Storage.Tokens
use uni_mail.Storage.Tokens.{StoredToken}
use uni_mail.Storage.Accounts
use uni_mail.Storage.Accounts.Laws.{get_sound}
use uni_mail.Storage.Flows.{has_state}
use uni_mail.Storage.Consistency.{IsConsistent}
use uni_mail.Storage.Consistency.Stores.{take-Keeps, stores-IsConsistent}
use uni_mail.Storage.Flows.Laws.{take_sound}
use uni_mail.Storage.Isolation.{
  SameElsewhere, SameElsewhere-refl, IsForeignTo, upsert-SameElsewhere, create-SameElsewhere,
  take-SameElsewhere,
}
use uni_mail.Storage.Isolation.Owners.{get-IsForeignTo, create-IsForeignTo}
use uni_mail.Storage.Reads.{get-Keeps, get_by_email-Keeps}
use uni_mail.Auth.Oauth.{TokenSet}
use uni_mail.Auth.Token.{TokenManager, ResolvedIdentity}
use uni_mail.Auth.Keeping.{exchange_code-Keeps, to_stored-Keeps}
use uni_mail.Auth.Flow.{
  create_missing, write_connection, store_connection, complete_flow, flow_error,
}
use uni_mail.Auth.Callback.{
  CallbackState, CallbackParams, completed, refused, complete_callback, handle_callback,
}
use uni_mail.Auth.Flow.Complete.{connected_account-IsFor}
use uni_mail.Auth.Flow.Writes.{write_connection-Keeps}
use uni_mail.Auth.Flow.Keeping.{KeepsDatabase, connected_account-Keeps, page-Keeps}

-- Consistent, and the same as before for all tenants but one.
abbrev pub IsIsolated : String → Database → Database → Type 0
IsIsolated tenant before db = IsConsistent db × SameElsewhere tenant before db

module _ (host : Host) (m : TokenManager) (tenant : String) (before : Database) where
  -- What is foreign to the tenant's rivals now was so before.
  was_foreign :
      (db : Database) (id : String)
      → SameElsewhere tenant before db
      → IsForeignTo tenant db id
      → IsForeignTo tenant before id
  was_foreign db id h foreign = ap (λ rows. Tokens.has_account id rows) (sym h.accounts) ∙ foreign

  -- The account is created, then its token is written.
  created-SameElsewhere :
      (a : Account) (stored : StoredToken)
      → a.tenant_id ≡ tenant
      → Keeps
          (SameElsewhere tenant before)
          (Accounts.create host a >>= λ _. Tokens.upsert host m.key a.id stored >>= λ _. pure a)
  created-SameElsewhere a stored owner =
      Keeps-bind_known _ _ (create-SameElsewhere host tenant before a owner) (λ w _ h done.
        Keeps-bind _ _
          (upsert-SameElsewhere host tenant a.id before
            (was_foreign w.db a.id h (create-IsForeignTo host tenant w a done)) m.key stored)
          (λ _. Keeps-pure a))

  write_connection-SameElsewhere :
      (a : Account) (stored : StoredToken) (known : Outcome AppError Account)
      → a.tenant_id ≡ tenant
      → ((b : Account) → known ≡ ok b → IsForeignTo tenant before a.id)
      → Keeps (SameElsewhere tenant before) (write_connection host m a stored known)
  unfolding write_connection create_missing
  write_connection-SameElsewhere a stored (ok b) owner foreign =
      let write = upsert-SameElsewhere host tenant a.id before (foreign b refl) m.key stored in
      Keeps-bind _ _ (Keeps-pure tt) (λ _. Keeps-bind _ _ write (λ _. Keeps-pure a))
  write_connection-SameElsewhere a stored (err e) owner foreign =
      created-SameElsewhere a stored owner
  write_connection-SameElsewhere a stored (panic text) owner foreign =
      created-SameElsewhere a stored owner

  found_foreign :
      (w : World) (a : Account) (known : Outcome AppError Account)
      → IsIsolated tenant before w.db
      → (Accounts.get host tenant a.id w).0 ≡ known
      → (b : Account) → known ≡ ok b
      → IsForeignTo tenant before a.id
  found_foreign w a known (consistent, h) found b is_ok =
      let there = found ∙ is_ok in
      let same = (get_sound host tenant a.id b w there).1 in
      was_foreign w.db a.id h
        (rw (← same) (get-IsForeignTo host tenant w consistent.accounts_distinct a.id b there))

  store_connection-IsIsolated :
      (identity : ResolvedIdentity) (set : TokenSet) (token : String)
      → Keeps (IsIsolated tenant before) (store_connection host m tenant identity set token)
  unfolding store_connection
  store_connection-IsIsolated identity set token =
      Keeps-bind_known _ _ (Keeps-attempt _ (get_by_email-Keeps host tenant identity.email))
        (λ w existing _ looked.
          Keeps-bind_known _ _ (connected_account-Keeps host m existing tenant identity)
            (λ w₁ a _ made.
              let owner =
                (connected_account-IsFor host m existing tenant identity a w₁ w
                  (attempt-eq-ok (Accounts.get_by_email host tenant identity.email) w looked)
                  made).0 in
              Keeps-bind _ _ (to_stored-Keeps host m set token) (λ stored.
                Keeps-bind_known _ _ (Keeps-attempt _ (get-Keeps host tenant a.id))
                  (λ w₂ known h found.
                    Keeps-both _
                      (write_connection-Keeps host m (stores-IsConsistent host m.key) a stored
                        known)
                      (write_connection-SameElsewhere a stored known owner (
                        found_foreign w₂ a known h
                          (attempt-eq-ok (Accounts.get host tenant a.id) w₂ found)))))))

-- If there is a flow of this state, the tenant began it.
abbrev pub IsBegunBy : String → Database → String → Type 0
IsBegunBy tenant db state =
    (row : FlowRow) → find (has_state state) db.flows ≡ some row → row.tenant_id ≡ tenant

module _ (host : Host) (m : TokenManager) (tenant : String) (w : World)
    (resolver : KeepsDatabase (IsIsolated tenant w.db) m.profile)
    (consistent : IsConsistent w.db) where
  abbrev unchanged : IsIsolated tenant w.db w.db
  unchanged = (consistent, SameElsewhere-refl tenant w.db)

  complete_flow-IsIsolated :
      (code state : String)
      → IsBegunBy tenant w.db state
      → KeepsAt (IsIsolated tenant w.db) w (complete_flow host m code state)
  unfolding complete_flow
  complete_flow-IsIsolated code state begun =
      KeepsAt-bind w _ _
        (Keeps-KeepsAt w _ unchanged (
          Keeps-on_error _ _ (
            Keeps-both _ (take-Keeps host m.key state)
              (take-SameElsewhere host tenant w.db m.key state))))
        (λ flow taken.
          let (row, there, same, _) =
            take_sound host m.key state flow w (map_err-eq-ok flow_error _ taken) in
          let owner = same ∙ begun row there in
          Keeps-bind _ _ (exchange_code-Keeps host m.oauth code flow.verifier) (λ set.
            Keeps-bind _ _ (Keeps-or_error _ _) (λ token.
              Keeps-bind _ _ (resolver set.access_token) (λ identity.
                rw owner (store_connection-IsIsolated host m tenant w.db identity set token)))))

  module _ (p : CallbackParams)
      (begun : (state : String) → p.state ≡ some state → IsBegunBy tenant w.db state) where
    completed-IsIsolated :
        (code state : Option String)
        → p.state ≡ state
        → KeepsAt (IsIsolated tenant w.db) w (completed host m code state)
    completed-IsIsolated none state given = Keeps-KeepsAt w _ unchanged (Keeps-fail _)
    completed-IsIsolated (some code) none given = Keeps-KeepsAt w _ unchanged (Keeps-fail _)
    completed-IsIsolated (some code) (some state) given =
        complete_flow-IsIsolated code state (begun state given)

    refused-IsIsolated :
        (error : Option String) → KeepsAt (IsIsolated tenant w.db) w (refused host m p error)
    refused-IsIsolated none = completed-IsIsolated p.code p.state refl
    refused-IsIsolated (some error) = Keeps-KeepsAt w _ unchanged (Keeps-fail _)

    pub handle_callback-IsIsolated :
        (st : CallbackState) → KeepsAt (IsIsolated tenant w.db) w (handle_callback host m st p)
    unfolding handle_callback complete_callback
    handle_callback-IsIsolated st =
        KeepsAt-bind w _ _ (KeepsAt-attempt w _ (refused-IsIsolated p.error))
          (λ r _. Keeps-bind _ _ (page-Keeps r) (λ _. Keeps-pure _))
