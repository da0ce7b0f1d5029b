-- ===== src/Auth/Token/Missing.antt =====
-- Asking for the access token of an account that has none stored (src/auth/token.rs).
use uni_mail.Common.{◌≡◌, String, false, none, arith, find, ◌+◌}
use uni_mail.Error.{err}
use uni_mail.Exec.{World}
use uni_mail.Host.{Host}
use uni_mail.Storage.Tokens.{owned_by}
use uni_mail.Storage.Tokens.Laws.{get_missing}
use uni_mail.Auth.Token.{
  TokenManager, not_connected, account_lock, refresh_account, refreshed_token, cached_or_refreshed,
  get_access_token,
}

module _ (host : Host) (m : TokenManager) (account_id : String) where
  refresh_missing :
      (w : World)
      → find (owned_by account_id) w.tokens ≡ none
      → w.poisoned ≡ false
      → host.sql_fault w.answers ≡ none
      → ((refresh_account host m account_id w).0 ≡ err not_connected)
        × ((refresh_account host m account_id w).1.requests ≡ w.requests)
  unfolding refresh_account account_lock
  refresh_missing w gone free healthy =
      let w₁ = (account_lock host m account_id w).1 in
      (
        ground (arith, get_missing host m.key account_id w₁),
        ground (arith, get_missing host m.key account_id w₁),
      )

  -- An account without a stored token, such as a disconnected one, is handed out no access token:
  -- the answer is that it is not connected, and no request is sent, where the lock is not poisoned
  -- and the SQL engine does not fail.
  pub get_access_token_missing :
      (w : World)
      → find (owned_by account_id) w.tokens ≡ none
      → w.poisoned ≡ false
      → host.sql_fault w.answers ≡ none
      → host.sql_fault (w.answers + 1) ≡ none
      → ((get_access_token host m account_id w).0 ≡ err not_connected)
        × ((get_access_token host m account_id w).1.requests ≡ w.requests)
  unfolding get_access_token cached_or_refreshed refreshed_token
  get_access_token_missing w gone free healthy healthy' =
      let w₁ : World = record w { answers = w.answers + 1 } in
      let read = get_missing host m.key account_id w free healthy gone in
      let (refused, quiet) = refresh_missing w₁ gone free healthy' in
      (ground (arith, read, refused), ground (arith, read, refused, quiet))
