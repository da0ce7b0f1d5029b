-- ===== src/Auth/Flow.antt =====
-- src/auth/token.rs: beginning and completing an OAuth flow.
pub mod Complete
pub mod Connect
pub mod Writes
pub mod Isolation
pub mod Keeping
pub mod Returns
pub mod Refusal
use Prim.Native.String
use uni_mail.Common.{
  ℕ, ◌+◌, ◌-◌, ◌*◌, String, Bool, true, false, List, [], ◌∷◌, Option, none, some, ℤ, pos, negsuc,
  suc, ◌==◌, leb, ltb, any, if◌then◌else◌,
}
use mathlib.Core.Option
use uni_mail.Error.{
  Outcome, ok, err, panic, is_ok, AppError, auth, storage, not_found, token_expired,
}
use uni_mail.Exec.{
  Exec, World, ◌>>=◌, ◌>>◌, pure, fail, lift, crash, ask, attempt, ignore, on_error, or_error,
}
use uni_mail.Host.{Host, OAuthClient}
use uni_mail.Storage.Models.{Account, AccountStatus, active, disconnected, is_disconnected}
use uni_mail.Storage.Tokens
use uni_mail.Storage.Tokens.{StoredToken}
use uni_mail.Storage.Accounts
use uni_mail.Storage.Flows
use uni_mail.Storage.Flows.{FlowError, unknown_state, expired}
use uni_mail.Auth.Oauth.{TokenSet, hour, second, authorize_url, exchange_code, refresh, add_time}
use uni_mail.Auth.Token.{
  ResolvedIdentity, ProfileResolver, TokenManager, to_stored, refresh_account,
}

abbrev pub flow_error : FlowError → AppError
flow_error unknown_state = auth "unknown or already-used state"
flow_error expired = auth "authorization flow expired"
flow_error (FlowError.storage m) = storage m

module _ (host : Host) (m : TokenManager) where
  -- `begin_flow`: the consent URL
  unfoldable pub begin_flow : String → Exec AppError String
  begin_flow tenant_id = do
    consent ← authorize_url host m.oauth
    Flows.insert host m.key consent.verifier tenant_id consent.state
    pure consent.url

  -- The account that a completed flow connects: the one with that email, or a new one.
  unfoldable pub connected_account :
      Outcome AppError Account → String → ResolvedIdentity → Exec AppError Account
  unfolding Accounts.now
  connected_account (ok existing) tenant_id identity = do
    time ← Accounts.now host
    pure (record existing {
      display_name = identity.display_name;
      status = active;
      updated_at = time;
    })
  connected_account (err (not_found _)) tenant_id identity = do
    id ← ask host.new_uuid
    created ← Accounts.now host
    updated ← Accounts.now host
    pure (record {
      id = id;
      tenant_id = tenant_id;
      email_address = identity.email;
      display_name = identity.display_name;
      provider = "microsoft";
      status = active;
      created_at = created;
      updated_at = updated;
    })
  connected_account (err e) tenant_id identity = fail e
  connected_account (panic text) tenant_id identity = crash text

  -- `create` unless the account can be read
  unfoldable pub create_missing : Outcome AppError Account → Account → Exec AppError (Unit {0})
  create_missing known account = if is_ok known then pure tt else Accounts.create host account

  -- The writes of `complete_flow`: the account if it could not be read, then the token.
  unfoldable pub write_connection :
      Account → StoredToken → Outcome AppError Account → Exec AppError Account
  unfolding create_missing
  write_connection account stored known = do
    create_missing known account
    Tokens.upsert host m.key account.id stored
    pure account

  -- The part of `complete_flow` behind the identity: account, then token.
  unfoldable pub store_connection :
      String → ResolvedIdentity → TokenSet → String → Exec AppError Account
  unfolding connected_account to_stored
  store_connection tenant_id identity set refresh_token = do
    existing ← attempt (Accounts.get_by_email host tenant_id identity.email)
    account ← connected_account existing tenant_id identity
    stored ← to_stored host m set refresh_token
    known ← attempt (Accounts.get host tenant_id account.id)
    write_connection account stored known

  -- `complete_flow`
  unfoldable pub complete_flow : String → String → Exec AppError Account
  complete_flow code state = do
    flow ← on_error flow_error (Flows.take host m.key state)
    set ← exchange_code host m.oauth code flow.verifier
    refresh_token ←
        or_error set.refresh_token
          (auth "no refresh token returned (ensure the 'offline_access' scope was granted)")
    identity ← m.profile.resolve set.access_token
    store_connection flow.tenant_id identity set refresh_token
