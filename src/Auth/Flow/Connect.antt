-- ===== src/Auth/Flow/Connect.antt =====
-- The writes of a completed OAuth flow (`complete_flow` of src/auth/token.rs).
use mathlib.Core.Option
use uni_mail.Common.{◌≡◌, refl, String, true, some, arith, any, ◌+◌}
use uni_mail.Error.{Outcome, ok, AppError}
use uni_mail.Exec.{World}
use uni_mail.Host.{Host}
use uni_mail.Storage.Models.{Account, active}
use uni_mail.Storage.Tokens.{StoredToken}
use uni_mail.Storage.Accounts
use uni_mail.Storage.Accounts.{to_row, conflicts, now}
use uni_mail.Storage.Accounts.Frame.{
  get_by_email-db, get-db, upsert-accounts, create_conflict, get_by_email-conflicts,
}
use uni_mail.Auth.Oauth.{TokenSet}
use uni_mail.Auth.Token.{join, TokenManager, ResolvedIdentity, to_stored}
use uni_mail.Auth.Flow.{connected_account, create_missing, write_connection, store_connection}

module _ (host : Host) (m : TokenManager) where
  -- `to_stored` always returns and leaves the database alone.
  to_stored-db :
      (set : TokenSet) (refresh_token : String) (w : World)
      → (to_stored host m set refresh_token w).1.db ≡ w.db
  unfolding to_stored
  to_stored-db set refresh_token w = refl

  connected_account-db :
      (known : Outcome AppError Account) (tenant_id : String) (identity : ResolvedIdentity)
      (w : World)
      → (connected_account host m known tenant_id identity w).1.db ≡ w.db
  unfolding connected_account now
  connected_account-db known tenant_id identity w = ground arith

  -- Writing a connection whose key is taken succeeds only without inserting an account.
  write_connection_taken :
      (a b : Account) (stored : StoredToken) (known : Outcome AppError Account) (w : World)
      → any (conflicts (to_row a)) w.accounts ≡ true
      → (write_connection host m a stored known w).0 ≡ ok b
      → (b ≡ a) × ((write_connection host m a stored known w).1.accounts ≡ w.accounts)
  unfolding write_connection create_missing
  write_connection_taken a b stored known w taken done =
      ground (arith, create_conflict host a w taken, upsert-accounts host m.key a.id stored w)

  -- A completed flow for an email that the tenant has already connected returns the account under
  -- its old id with the status active, and leaves the table of accounts as it was: the status, the
  -- display name and the time of the stored row are those from before.
  pub reconnect_keeps_accounts :
      (tenant_id : String) (identity : ResolvedIdentity) (set : TokenSet) (refresh_token : String)
      (w : World) (existing account : Account)
      → (Accounts.get_by_email host tenant_id identity.email w).0 ≡ ok existing
      → (store_connection host m tenant_id identity set refresh_token w).0 ≡ ok account
      → (account.status ≡ active)
        × (account.id ≡ existing.id)
        × ((store_connection host m tenant_id identity set refresh_token w).1.accounts ≡ w.accounts)
  unfolding store_connection to_stored connected_account now
  reconnect_keeps_accounts tenant_id identity set refresh_token w existing account known done =
      let w₁ = (Accounts.get_by_email host tenant_id identity.email w).1 in
      let fresh : Account = record existing {
        display_name = identity.display_name;
        status = active;
        updated_at = host.to_rfc3339 (host.utc_now w₁.answers);
      } in
      let (r, w₂) = connected_account host m (ok existing) tenant_id identity w₁ in
      let (s, w₃) = to_stored host m set refresh_token w₂ in
      let stored : StoredToken = record {
        access_token = set.access_token;
        refresh_token = refresh_token;
        scope = Option.map join set.scopes;
        expires_at = set.expires_at;
        last_used_at = some (host.utc_now w₂.answers);
        updated_at = host.utc_now (w₂.answers + 1);
      } in
      let (found, w₄) = Accounts.get host tenant_id existing.id w₃ in
      ground (
        arith,
        get_by_email-db host tenant_id identity.email w,
        get-db host tenant_id existing.id w₃,
        get_by_email-conflicts host tenant_id identity.email w existing fresh known refl,
        write_connection_taken fresh account stored found w₄,
      )
