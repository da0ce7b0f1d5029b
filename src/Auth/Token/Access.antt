-- ===== src/Auth/Token/Access.antt =====
-- Where access tokens come from (`get_access_token` of src/auth/token.rs).
use uni_mail.Common.{
  ℕ, ◌+◌, ◌<◌, ◌≡◌, ◌⊎◌, inl, inr, refl, String, Bool, true, false, Option, none, some, arith, ◌∙◌,
}
use uni_mail.Error.{ok}
use uni_mail.Exec.{World}
use uni_mail.Exec.Inversion.{>>=-eq-ok}
use uni_mail.Host.{Host}
use uni_mail.Storage.Tokens
use uni_mail.Storage.Tokens.{StoredToken, owned_by}
use uni_mail.Storage.Accounts.Frame.{tokens_get-db, tokens_get-requests}
use uni_mail.Auth.Oauth.{add_time}
use uni_mail.Auth.Token.{
  TokenManager, expiry_skew, refresh_account, refreshed_token, cached_or_refreshed, is_fresh,
  is_fresh_found, access_of, bump_last_used, get_access_token,
}

module _ (host : Host) (m : TokenManager) where
  -- The cached token is used: it was read at the start, and its expiry lies more than the skew of
  -- five minutes past the clock.
  abbrev pub IsCached : String → World → String → Type 0
  IsCached account_id w access =
      (token : StoredToken) × (expires_at : ℕ) × ((Tokens.get host m.key account_id w).0
        ≡ ok (some token))
      × (token.expires_at ≡ some expires_at)
      × (token.access_token ≡ access)
      × (host.utc_now (Tokens.get host m.key account_id w).1.answers + expiry_skew < expires_at)

  -- A refresh from the same database returned, and the token was read after it.
  abbrev pub IsRefreshed : String → World → String → Type 0
  IsRefreshed account_id w access =
      (w' : World) × (token : StoredToken) × (w'.db ≡ w.db)
      × (w'.requests ≡ w.requests)
      × ((refresh_account host m account_id w').0 ≡ ok tt)
      × ((Tokens.get host m.key account_id (refresh_account host m account_id w').1).0
          ≡ ok (some token))
      × (token.access_token ≡ access)

  token_of :
      (found : Option StoredToken) (access : String) (w : World)
      → (access_of found w).0 ≡ ok access
      → (token : StoredToken) × (found ≡ some token) × (token.access_token ≡ access)
  token_of none access w h = cc
  token_of (some token) access w h = (token, refl, cc)

  refreshed_token-IsRefreshed :
      (account_id access : String) (w w' : World)
      → w'.db ≡ w.db
      → w'.requests ≡ w.requests
      → (refreshed_token host m account_id w').0 ≡ ok access
      → IsRefreshed account_id w access
  unfolding refreshed_token
  refreshed_token-IsRefreshed account_id access w w' same quiet h =
      let (_, returned, h₁) = >>=-eq-ok (refresh_account host m account_id) _ w' h in
      let (found, read, h₂) =
        >>=-eq-ok (Tokens.get host m.key account_id) access_of
          (refresh_account host m account_id w').1 h₁ in
      let (token, there, equal) = token_of found access _ h₂ in
      (w', token, same, quiet, returned, rw (← there) read, equal)

  is_fresh_world :
      (found : Option StoredToken) (w : World)
      → ((is_fresh_found host m found w).1.db ≡ w.db)
        × ((is_fresh_found host m found w).1.requests ≡ w.requests)
  unfolding is_fresh add_time
  is_fresh_world found w = (ground arith, ground arith)

  -- A token counts as fresh only if it outlives the skew.
  is_fresh_sound :
      (expiry : Option ℕ) (w : World)
      → (is_fresh host m expiry w).0 ≡ ok true
      → (t : ℕ) × (expiry ≡ some t) × (host.utc_now w.answers + expiry_skew < t)
  unfolding is_fresh add_time
  is_fresh_sound none w h = cc
  is_fresh_sound (some t) w h = (t, refl, ground arith)

  cached_access :
      (token : StoredToken) (account_id access : String) (w : World)
      → (cached_or_refreshed host m (some token) account_id true w).0 ≡ ok access
      → token.access_token ≡ access
  unfolding cached_or_refreshed
  cached_access token account_id access w h =
      let (_, bumped, same) = >>=-eq-ok (bump_last_used host m account_id token) _ w h in cc

  -- The two ways of `get_access_token`, once the token is read and its age is known.
  checked_access :
      (found : Option StoredToken) (fresh : Bool) (account_id access : String) (w w' : World)
      → (Tokens.get host m.key account_id w).0 ≡ ok found
      → (is_fresh_found host m found (Tokens.get host m.key account_id w).1).0 ≡ ok fresh
      → w'.db ≡ w.db
      → w'.requests ≡ w.requests
      → (cached_or_refreshed host m found account_id fresh w').0 ≡ ok access
      → IsCached account_id w access ⊎ IsRefreshed account_id w access
  unfolding cached_or_refreshed
  checked_access (some token) true account_id access w w' read checked same quiet h =
      let (t, expires, later) = is_fresh_sound token.expires_at _ checked in
      inl (token, t, read, expires, cached_access token account_id access w' h, later)
  checked_access (some token) false account_id access w w' read checked same quiet h =
      inr (refreshed_token-IsRefreshed account_id access w w' same quiet h)
  checked_access none fresh account_id access w w' read checked same quiet h =
      inr (refreshed_token-IsRefreshed account_id access w w' same quiet h)

  -- An access token that is handed out is the cached one, whose expiry lies more than five minutes
  -- past the clock, or the one that is read after a refresh that returned and that started from the
  -- same database with no request sent before it. Nothing else is ever handed out.
  pub get_access_token_sound :
      (account_id access : String) (w : World)
      → (get_access_token host m account_id w).0 ≡ ok access
      → IsCached account_id w access ⊎ IsRefreshed account_id w access
  unfolding get_access_token
  get_access_token_sound account_id access w h =
      let w₁ = (Tokens.get host m.key account_id w).1 in
      let (found, read, h₁) = >>=-eq-ok (Tokens.get host m.key account_id) _ w h in
      let (fresh, checked, h₂) =
        >>=-eq-ok (is_fresh_found host m found) (cached_or_refreshed host m found account_id) w₁
          h₁ in
      let (same, quiet) = is_fresh_world found w₁ in
      checked_access found fresh account_id access w _ read checked
        (same ∙ tokens_get-db host m.key account_id w)
        (quiet ∙ tokens_get-requests host m.key account_id w) h₂
