-- ===== src/Auth/Returns.antt =====
-- The OAuth client and the calls for one account of src/auth return, and leave the database's lock
-- free.
use uni_mail.Common.{ℕ, ◌+◌, ◌≤◌, String, Bool, true, false, Option, none, some, le→leb}
use uni_mail.Exec.Calm.{NoPanic, step-IsCalm}
use uni_mail.Exec.Returns.{Returns, IsCalm-Returns, returns_rules}
use uni_mail.Host.{Host, OAuthClient, Request}
use uni_mail.Storage.Tokens
use uni_mail.Storage.Tokens.{StoredToken}
use uni_mail.Storage.Free.{stores-IsFree}
use uni_mail.Storage.Reads.{tokens_get-Keeps}
use uni_mail.Auth.Oauth.{TokenSet, client, authorize_url, add_time, exchange_code}
use uni_mail.Auth.Keeping.{
  exchange_code-Keeps, to_stored-Keeps, is_fresh-Keeps, refresh_account-Keeps,
}
use uni_mail.Auth.Token.{
  TokenManager, expiry_skew, to_stored, refresh_account, should_write, write_last_used,
  bump_last_used, is_fresh, is_fresh_found, refreshed_token, cached_or_refreshed, get_access_token,
}
use uni_mail.Auth.Token.Calm.{
  HasCalmCrates, get-IsCalm, upsert-IsCalm, token_request-IsCalm, to_stored-IsCalm,
  refresh_account-IsCalm,
}

-- No crate panics, and the clock stands five minutes or more before chrono's latest time.
pub record HasReliableCrates (host : Host) : Type 0 where
  pub calm : HasCalmCrates host
  pub before_end : (n : ℕ) → host.utc_now n + expiry_skew ≤ host.max_time
  pub sends : (n : ℕ) (r : Request) → NoPanic (host.send n r)
  pub parses_json : (text : String) → NoPanic (host.parse_json text)

module _ {host : Host} (laws : HasReliableCrates host) where
  client-Returns : (c : OAuthClient) → Returns (client host c)
  unfolding client
  client-Returns c = search (returns_rules, laws.calm.parses) depth 20

  pub authorize_url-Returns : (c : OAuthClient) → Returns (authorize_url host c)
  unfolding authorize_url
  authorize_url-Returns c = search (returns_rules, client-Returns) depth 20

  pub exchange_code-Returns :
      (c : OAuthClient) (code verifier : String) → Returns (exchange_code host c code verifier)
  unfolding exchange_code
  exchange_code-Returns c code verifier =
      IsCalm-Returns _ (token_request-IsCalm laws.calm c _ _)
        (exchange_code-Keeps host c code verifier)

  module _ (m : TokenManager) where
    pub to_stored-Returns : (set : TokenSet) (token : String) → Returns (to_stored host m set token)
    to_stored-Returns set token =
        IsCalm-Returns _ (to_stored-IsCalm laws.calm m set token) (to_stored-Keeps host m set token)

    pub tokens_get-Returns : (id : String) → Returns (Tokens.get host m.key id)
    tokens_get-Returns id =
        IsCalm-Returns _ (get-IsCalm laws.calm m.key id) (tokens_get-Keeps host m.key id)

    pub upsert-Returns :
        (id : String) (token : StoredToken) → Returns (Tokens.upsert host m.key id token)
    upsert-Returns id token =
        IsCalm-Returns _ (upsert-IsCalm laws.calm m.key id token)
          ((stores-IsFree host m.key).upsert id token)

    pub refresh_account-Returns : (id : String) → Returns (refresh_account host m id)
    refresh_account-Returns id =
        IsCalm-Returns _ (refresh_account-IsCalm laws.calm m id)
          (refresh_account-Keeps host m id ((stores-IsFree host m.key).upsert id))

    should_write-Returns : (last : Option ℕ) → Returns (should_write host m last)
    unfolding should_write
    should_write-Returns none = search returns_rules
    should_write-Returns (some last) = search returns_rules depth 20

    bump_last_used-Returns :
        (id : String) (token : StoredToken) → Returns (bump_last_used host m id token)
    unfolding bump_last_used write_last_used
    bump_last_used-Returns id token =
        search (returns_rules, should_write-Returns, upsert-Returns) depth 20

    is_fresh-Returns : (expires : Option ℕ) → Returns (is_fresh host m expires)
    unfolding is_fresh add_time
    is_fresh-Returns none = search returns_rules
    is_fresh-Returns (some t) =
        IsCalm-Returns _
          (step-IsCalm _ (λ w.
            rw
              (le→leb (host.utc_now w.answers + expiry_skew) host.max_time
                (laws.before_end w.answers))
              tt))
          (is_fresh-Keeps host m (some t))

    is_fresh_found-Returns : (found : Option StoredToken) → Returns (is_fresh_found host m found)
    is_fresh_found-Returns none = search returns_rules
    is_fresh_found-Returns (some token) = is_fresh-Returns token.expires_at

    refreshed_token-Returns : (id : String) → Returns (refreshed_token host m id)
    unfolding refreshed_token
    refreshed_token-Returns id =
        search (returns_rules, refresh_account-Returns, tokens_get-Returns) depth 20

    cached_or_refreshed-Returns :
        (found : Option StoredToken) (id : String) (fresh : Bool)
        → Returns (cached_or_refreshed host m found id fresh)
    unfolding cached_or_refreshed
    cached_or_refreshed-Returns none id fresh = refreshed_token-Returns id
    cached_or_refreshed-Returns (some token) id true =
        search (returns_rules, bump_last_used-Returns) depth 20
    cached_or_refreshed-Returns (some token) id false = refreshed_token-Returns id

    pub get_access_token-Returns : (id : String) → Returns (get_access_token host m id)
    unfolding get_access_token
    get_access_token-Returns id =
        search
          (returns_rules, tokens_get-Returns, is_fresh_found-Returns, cached_or_refreshed-Returns)
          depth 20
