-- ===== src/Auth/Flow/Returns.antt =====
-- A flow that begins and one that completes (src/auth/token.rs), and the callback that it comes by
-- (src/auth/callback.rs), return, and leave the database's lock free.
use uni_mail.Common.{ℕ, refl, ap, String, List, Option, none, some}
use uni_mail.Error.{Outcome, ok, err, panic, AppError}
use uni_mail.Exec.{lock, expect}
use uni_mail.Exec.Calm.{NoPanic}
use uni_mail.Exec.Returns.{Returns, Returns-expect, Returns-writes, returns_rules}
use uni_mail.Host.{Host}
use uni_mail.Storage.Models.{Account, FlowRow}
use uni_mail.Storage.Crypto.{encrypt}
use uni_mail.Storage.Crypto.Laws.{HasCipher, encrypt_lem}
use uni_mail.Storage.Tokens.{StoredToken}
use uni_mail.Storage.Flows
use uni_mail.Storage.Flows.{FlowError, unix_now, remove_row, open_flow}
use uni_mail.Storage.Reads.{encrypt-Keeps}
use uni_mail.Storage.Returns.{now-Returns, get-Returns, get_by_email-Returns, create-Returns}
use uni_mail.Auth.Oauth.{TokenSet}
use uni_mail.Auth.Token.{ProfileResolver, ResolvedIdentity, TokenManager}
use uni_mail.Auth.Token.Calm.{decrypt_calm}
use uni_mail.Auth.Returns.{
  HasReliableCrates, authorize_url-Returns, exchange_code-Returns, to_stored-Returns,
  upsert-Returns,
}
use uni_mail.Auth.Flow.{
  begin_flow, connected_account, create_missing, write_connection, store_connection, complete_flow,
}
use uni_mail.Auth.Callback.{
  CallbackState, CallbackParams, completed, refused, complete_callback, page, handle_callback,
}

-- A resolver that looks up an identity and returns.
abbrev pub AlwaysReturns : ProfileResolver → Type 0
AlwaysReturns p = (access_token : String) → Returns (p.resolve access_token)

module _ (host : Host) where
  unix_now-Returns : (E : Type 0) → Returns (unix_now {E = E} host)
  unfolding unix_now
  unix_now-Returns E = search returns_rules

  flows_insert_row-Returns : (row : FlowRow) → Returns (Flows.insert_row row)
  unfolding Flows.insert_row
  flows_insert_row-Returns row = search (returns_rules, Returns-writes) depth 20

  -- The lock is taken without an error.
  lock_taken : Returns (expect {E = AppError} {F = AppError} "database lock poisoned" lock)
  unfolding lock
  lock_taken = Returns-expect _ _ (λ w free. (tt, rw free refl)) (λ w free. free)

  remove_row-Returns : (state : String) → Returns (remove_row host state)
  unfolding remove_row
  remove_row-Returns state = search (returns_rules, Returns-writes) depth 20

  connected_account-Returns :
      (m : TokenManager) (known : Outcome AppError Account) (tenant : String)
      (identity : ResolvedIdentity)
      → NoPanic known
      → Returns (connected_account host m known tenant identity)
  unfolding connected_account
  connected_account-Returns m (ok a) tenant identity h =
      search (returns_rules, now-Returns) depth 20
  connected_account-Returns m (err (AppError.not_found _)) tenant identity h =
      search (returns_rules, now-Returns) depth 20
  connected_account-Returns m (err (AppError.config _)) tenant identity h = search returns_rules
  connected_account-Returns m (err (AppError.auth _)) tenant identity h = search returns_rules
  connected_account-Returns m (err (AppError.token_expired _)) tenant identity h =
      search returns_rules
  connected_account-Returns m (err (AppError.provider _)) tenant identity h = search returns_rules
  connected_account-Returns m (err (AppError.storage _)) tenant identity h = search returns_rules
  connected_account-Returns m (err (AppError.invalid_request _)) tenant identity h =
      search returns_rules
  connected_account-Returns m (err (AppError.internal _)) tenant identity h = search returns_rules
  connected_account-Returns m (err (AppError.io _)) tenant identity h = search returns_rules
  connected_account-Returns m (panic text) tenant identity h = absurd h

  page-Returns : (r : Outcome AppError Account) → NoPanic r → Returns (page r)
  unfolding page
  page-Returns (ok a) h = search returns_rules
  page-Returns (err e) h = search returns_rules
  page-Returns (panic text) h = absurd h

module _ {host : Host} (laws : HasReliableCrates host) (m : TokenManager)
    (cipher : HasCipher host m.key) where
  -- Encrypting meets the `expect` of `insert`.
  encrypted :
      (text : String) (plaintext : List ℕ)
      → Returns (expect {F = AppError} text (encrypt host m.key plaintext))
  encrypted text plaintext =
      Returns-expect text _
        (λ w free. let (c, e, d) = encrypt_lem cipher plaintext w in (_, ap (λ x. x.0) e))
        (encrypt-Keeps host m.key plaintext).at

  flows_insert-Returns :
      (verifier tenant state : String) → Returns (Flows.insert host m.key verifier tenant state)
  unfolding Flows.insert
  flows_insert-Returns verifier tenant state =
      search
        (
          returns_rules, unix_now-Returns, encrypted, lock_taken, Returns-writes,
          flows_insert_row-Returns,
        )
        depth 20

  pub begin_flow-Returns : (tenant : String) → Returns (begin_flow host m tenant)
  unfolding begin_flow
  begin_flow-Returns tenant =
      search (returns_rules, authorize_url-Returns laws, flows_insert-Returns) depth 20

module _ {host : Host} (laws : HasReliableCrates host) (m : TokenManager)
    (resolver : AlwaysReturns m.profile) where
  open_flow-Returns : (row : FlowRow) (now : ℕ) → Returns (open_flow host m.key row now)
  unfolding open_flow
  open_flow-Returns row now =
      search (returns_rules, decrypt_calm laws.calm, laws.calm.decodes) depth 20

  take-Returns : (state : String) → Returns (Flows.take host m.key state)
  unfolding Flows.take
  take-Returns state =
      search (returns_rules, remove_row-Returns, unix_now-Returns, open_flow-Returns) depth 20

  write_connection-Returns :
      (a : Account) (stored : StoredToken) (known : Outcome AppError Account)
      → Returns (write_connection host m a stored known)
  unfolding write_connection create_missing
  write_connection-Returns a stored known =
      search (returns_rules, create-Returns, upsert-Returns laws) depth 20

  store_connection-Returns :
      (tenant : String) (identity : ResolvedIdentity) (set : TokenSet) (token : String)
      → Returns (store_connection host m tenant identity set token)
  unfolding store_connection
  store_connection-Returns tenant identity set token =
      search
        (
          returns_rules,
          get_by_email-Returns,
          connected_account-Returns,
          to_stored-Returns laws,
          get-Returns,
          write_connection-Returns,
        )
        depth 20

  complete_flow-Returns : (code state : String) → Returns (complete_flow host m code state)
  unfolding complete_flow
  complete_flow-Returns code state =
      search
        (
          returns_rules,
          take-Returns,
          exchange_code-Returns laws,
          resolver,
          store_connection-Returns,
        )
        depth 20

  completed-Returns : (code state : Option String) → Returns (completed host m code state)
  completed-Returns none state = search returns_rules
  completed-Returns (some code) none = search returns_rules
  completed-Returns (some code) (some state) = complete_flow-Returns code state

  refused-Returns : (p : CallbackParams) (error : Option String) → Returns (refused host m p error)
  refused-Returns p none = completed-Returns p.code p.state
  refused-Returns p (some error) = search returns_rules

  pub complete_callback-Returns : (p : CallbackParams) → Returns (complete_callback host m p)
  unfolding complete_callback
  complete_callback-Returns p = refused-Returns p p.error

  pub handle_callback-Returns :
      (st : CallbackState) (p : CallbackParams) → Returns (handle_callback host m st p)
  unfolding handle_callback
  handle_callback-Returns st p =
      search (returns_rules, complete_callback-Returns, page-Returns) depth 20
