-- ===== src/Auth/Keeping.antt =====
-- Invariants of the database under the OAuth client and the calls for one account (src/auth).
use uni_mail.Common.{ℕ, String, Bool, true, false, Option, none, some, Option-cases, inl, inr}
use uni_mail.Error.{AppError}
use uni_mail.Exec.{Database}
use uni_mail.Exec.Keeps.{Keeps, keeps_rules}
use uni_mail.Host.{Host, OAuthClient, Request}
use uni_mail.Storage.Tokens.{StoredToken}
use uni_mail.Storage.Reads.{tokens_get-Keeps}
use uni_mail.Auth.Oauth.{
  TokenSet, client, authorize_url, add_time, expiry, token_set_from, token_request, exchange_code,
  refresh,
}
use uni_mail.Auth.Token.{
  TokenManager, entry, to_stored, account_lock, refresh_account, should_write, write_last_used,
  bump_last_used, is_fresh, is_fresh_found, refreshed_token, cached_or_refreshed, get_access_token,
}
use uni_mail.Storage.Tokens

-- The OAuth client only asks, and keeps every invariant.
module _ {P : Database → Type 0} (host : Host) where
  pub add_time-Keeps : (t d : ℕ) → Keeps P (add_time {E = AppError} host t d)
  unfolding add_time
  add_time-Keeps t d = search keeps_rules

  client-Keeps : (c : OAuthClient) → Keeps P (client host c)
  unfolding client
  client-Keeps c = search keeps_rules depth 20

  pub authorize_url-Keeps : (c : OAuthClient) → Keeps P (authorize_url host c)
  unfolding authorize_url
  authorize_url-Keeps c = search (keeps_rules, client-Keeps) depth 20

  expiry-Keeps : (d : Option ℕ) → Keeps P (expiry host d)
  unfolding expiry
  expiry-Keeps none = search keeps_rules
  expiry-Keeps (some d) = search (keeps_rules, add_time-Keeps) depth 20

  token_request-Keeps :
      (c : OAuthClient) (r : Request) (e : String → AppError) → Keeps P (token_request host c r e)
  unfolding token_request token_set_from
  token_request-Keeps c r e = search (keeps_rules, client-Keeps, expiry-Keeps) depth 20

  pub exchange_code-Keeps :
      (c : OAuthClient) (code verifier : String) → Keeps P (exchange_code host c code verifier)
  unfolding exchange_code
  exchange_code-Keeps c code verifier = token_request-Keeps c _ _

  pub refresh-Keeps : (c : OAuthClient) (token : String) → Keeps P (refresh host c token)
  unfolding refresh
  refresh-Keeps c token = token_request-Keeps c _ _

module _ {P : Database → Type 0} (host : Host) (m : TokenManager) where
  pub to_stored-Keeps : (set : TokenSet) (token : String) → Keeps P (to_stored host m set token)
  unfolding to_stored
  to_stored-Keeps set token = search keeps_rules depth 20

  pub account_lock-Keeps : (id : String) → Keeps P (account_lock host m id)
  unfolding account_lock
  account_lock-Keeps id = record {
    at = λ w h. elim (Option-cases (entry id w.refresh_locks)) [
      | inl new ↦ rw new h
      | inr (l, known) ↦ rw known h
    ];
  }

  pub should_write-Keeps : (last : Option ℕ) → Keeps P (should_write host m last)
  unfolding should_write
  should_write-Keeps none = search keeps_rules
  should_write-Keeps (some last) = search keeps_rules depth 20

  pub is_fresh-Keeps : (expires : Option ℕ) → Keeps P (is_fresh host m expires)
  unfolding is_fresh
  is_fresh-Keeps none = search keeps_rules
  is_fresh-Keeps (some t) = search (keeps_rules, add_time-Keeps) depth 20

  pub is_fresh_found-Keeps : (found : Option StoredToken) → Keeps P (is_fresh_found host m found)
  is_fresh_found-Keeps none = search keeps_rules
  is_fresh_found-Keeps (some token) = is_fresh-Keeps token.expires_at

-- The calls for one account write only its token, so they keep what every such write keeps.
module _ {P : Database → Type 0} (host : Host) (m : TokenManager) (id : String)
    (writes : (token : StoredToken) → Keeps P (Tokens.upsert host m.key id token)) where
  pub refresh_account-Keeps : Keeps P (refresh_account host m id)
  unfolding refresh_account
  refresh_account-Keeps =
      search
        (keeps_rules, account_lock-Keeps, tokens_get-Keeps, refresh-Keeps, to_stored-Keeps, writes)
        depth 20

  bump_last_used-Keeps : (token : StoredToken) → Keeps P (bump_last_used host m id token)
  unfolding bump_last_used write_last_used
  bump_last_used-Keeps token = search (keeps_rules, should_write-Keeps, writes) depth 20

  refreshed_token-Keeps : Keeps P (refreshed_token host m id)
  unfolding refreshed_token
  refreshed_token-Keeps = search (keeps_rules, refresh_account-Keeps, tokens_get-Keeps) depth 20

  cached_or_refreshed-Keeps :
      (found : Option StoredToken) (fresh : Bool)
      → Keeps P (cached_or_refreshed host m found id fresh)
  unfolding cached_or_refreshed
  cached_or_refreshed-Keeps none fresh = refreshed_token-Keeps
  cached_or_refreshed-Keeps (some token) true = search (keeps_rules, bump_last_used-Keeps) depth 20
  cached_or_refreshed-Keeps (some token) false = refreshed_token-Keeps

  pub get_access_token-Keeps : Keeps P (get_access_token host m id)
  unfolding get_access_token
  get_access_token-Keeps =
      search (keeps_rules, tokens_get-Keeps, is_fresh_found-Keeps, cached_or_refreshed-Keeps) depth
        20
