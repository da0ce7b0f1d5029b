-- ===== src/Auth/Token.antt =====
-- src/auth/token.rs: the token manager, its refreshes and its access tokens. One call runs to its
-- end before the next one starts, so the per-account refresh lock is always free; the map of locks
-- is kept. Flows are in Auth/Flow.antt, whole batches in Auth/Batch.antt.
pub mod Access
pub mod Calm
pub mod Missing
pub mod Rotation
use Prim.Native.String
use uni_mail.Common.{
  ℕ, ◌-◌, ◌*◌, String, Bool, true, false, List, [], ◌∷◌, Option, none, some, ◌==◌, ltb, length,
  if◌then◌else◌,
}
use mathlib.Core.Option
use uni_mail.Error.{ok, AppError, token_expired}
use uni_mail.Exec.{Exec, ◌>>=◌, ◌>>◌, pure, ask, ignore, or_error}
use uni_mail.Host.{Host, OAuthClient}
use uni_mail.Storage.Tokens
use uni_mail.Storage.Tokens.{StoredToken}
use uni_mail.Auth.Oauth.{TokenSet, hour, second, refresh, add_time}

abbrev pub expiry_skew : ℕ
expiry_skew = 300 * second

abbrev pub usage_write_interval : ℕ
usage_write_interval = 6 * hour

pub record ResolvedIdentity : Type 0 where
  pub email : String
  pub display_name : Option String

-- The trait `ProfileResolver`
pub record ProfileResolver : Type 0 where
  pub resolve : String → Exec AppError ResolvedIdentity

-- `TokenManager`: the stores are those of the shared database, with the key of the token store.
pub record TokenManager : Type 0 where
  pub oauth : OAuthClient
  pub key : List ℕ
  pub profile : ProfileResolver

-- `scopes.join(" ")`
unfoldable pub join : List String → String
join [] = ""
join (s ∷ []) = s
join (s ∷ t ∷ rest) = String.◌++◌ s (String.◌++◌ " " (join (t ∷ rest)))

abbrev pub not_connected : AppError
not_connected = token_expired "account is not connected (no token stored)"

abbrev pub access_of : Option StoredToken → Exec AppError String
access_of found = or_error (Option.map (λ (t : StoredToken). t.access_token) found) not_connected

-- A key's value in `refresh_locks`.
unfoldable pub entry : String → List (String × ℕ) → Option ℕ
entry id [] = none
entry id ((j, l) ∷ locks) = if j == id then some l else entry id locks

module _ (host : Host) (m : TokenManager) where
  -- The token set as it is stored, used and written now.
  unfoldable pub to_stored : TokenSet → String → Exec AppError StoredToken
  unfolding join
  to_stored set refresh_token = do
    used ← ask host.utc_now
    updated ← ask host.utc_now
    pure (record {
      access_token = set.access_token;
      refresh_token = refresh_token;
      scope = Option.map join set.scopes;
      expires_at = set.expires_at;
      last_used_at = some used;
      updated_at = updated;
    })

  -- `.entry(…).or_insert_with(…).clone()`: the mutex of the account's entry, or a new one, whose number
  -- no other one has, put into the map.
  abbrev entry_or_new : String → Option ℕ → Exec AppError ℕ
  entry_or_new id (some l) w = (ok l, w)
  entry_or_new id none w =
      let new = length w.refresh_locks in
      (ok new, record w { refresh_locks = (id, new) ∷ w.refresh_locks })

  -- `account_lock`
  unfoldable pub account_lock : String → Exec AppError ℕ
  account_lock id w = entry_or_new id (entry id w.refresh_locks) w

  -- `refresh_account`
  unfoldable pub refresh_account : String → Exec AppError (Unit {0})
  unfolding account_lock to_stored
  refresh_account account_id = do
    lock ← account_lock account_id
    found ← Tokens.get host m.key account_id
    current ← or_error found not_connected
    set ← refresh host m.oauth current.refresh_token
    stored ← to_stored set (Option.get_or set.refresh_token current.refresh_token)
    Tokens.upsert host m.key account_id stored

  -- `should_write` of `bump_last_used`
  unfoldable pub should_write : Option ℕ → Exec AppError Bool
  should_write none = pure true
  should_write (some last) = do now ← ask host.utc_now; pure (ltb usage_write_interval (now - last))

  -- The write of `bump_last_used`, whose failure is dropped.
  unfoldable pub write_last_used : String → StoredToken → Exec AppError (Unit {0})
  write_last_used account_id token = do
    used ← ask host.utc_now
    updated ← ask host.utc_now
    ignore (
        Tokens.upsert host m.key account_id
          (record token { last_used_at = some used; updated_at = updated }))

  -- `bump_last_used`
  unfoldable pub bump_last_used : String → StoredToken → Exec AppError (Unit {0})
  unfolding should_write write_last_used
  bump_last_used account_id token = do
    due ← should_write token.last_used_at
    if due then write_last_used account_id token else pure tt

  -- `expires_at > Utc::now() + EXPIRY_SKEW`, for a token that has an expiry
  unfoldable pub is_fresh : Option ℕ → Exec AppError Bool
  is_fresh none = pure false
  is_fresh (some expires_at) = do
    now ← ask host.utc_now
    limit ← add_time host now expiry_skew
    pure (ltb limit expires_at)

  abbrev pub is_fresh_found : Option StoredToken → Exec AppError Bool
  is_fresh_found none = pure false
  is_fresh_found (some token) = is_fresh token.expires_at

  -- The way of `get_access_token` without a usable cached token.
  unfoldable pub refreshed_token : String → Exec AppError String
  refreshed_token account_id = do
    refresh_account account_id
    found ← Tokens.get host m.key account_id
    access_of found

  unfoldable pub cached_or_refreshed : Option StoredToken → String → Bool → Exec AppError String
  cached_or_refreshed (some token) account_id true = do
    bump_last_used account_id token
    pure token.access_token
  cached_or_refreshed _ account_id _ = refreshed_token account_id

  -- `get_access_token`
  unfoldable pub get_access_token : String → Exec AppError String
  get_access_token account_id = do
    found ← Tokens.get host m.key account_id
    fresh ← is_fresh_found found
    cached_or_refreshed found account_id fresh
