-- ===== src/Auth/Batch.antt =====
-- src/auth/token.rs: refreshing many accounts, and disconnecting one.
pub mod Keeping
pub mod Returns
pub mod Laws
use uni_mail.Common.{
  ℕ, ◌+◌, ◌-◌, ◌*◌, String, List, [], ◌∷◌, none, ℤ, pos, negsuc, suc, leb, if◌then◌else◌,
}
use uni_mail.Error.{Outcome, ok, err, panic, AppError}
use uni_mail.Exec.{Exec, ◌>>=◌, ◌>>◌, pure, crash, ask, attempt}
use uni_mail.Host.{Host}
use uni_mail.Storage.Models.{Account, active, disconnected, is_disconnected}
use uni_mail.Storage.Tokens
use uni_mail.Storage.Tokens.{StoredToken}
use uni_mail.Storage.Accounts
use uni_mail.Auth.Oauth.{hour, add_time}
use uni_mail.Auth.Token.{TokenManager, refresh_account}

abbrev pub day : ℕ
day = 24 * hour

-- The account that stands for a listing that failed.
abbrev pub dummy_account : Account
dummy_account = record {
  id = "";
  tenant_id = "";
  email_address = "unknown";
  display_name = none;
  provider = "microsoft";
  status = active;
  created_at = "";
  updated_at = "";
}

abbrev pub count_ok : Outcome AppError (Unit {0}) → ℕ
count_ok (ok _) = 1
count_ok _ = 0

module _ (host : Host) (m : TokenManager) where
  -- The loop of `refresh_all`.
  unfoldable pub refresh_each :
      List Account → Exec AppError (List (Account × Outcome AppError (Unit {0})))
  refresh_each [] = pure []
  refresh_each (a ∷ rest) =
      let later = refresh_each rest in
      if is_disconnected a.status then later else (do
        result ← attempt (refresh_account host m a.id)
        outcomes ← later
        pure ((a, result) ∷ outcomes))

  unfoldable pub refresh_listed :
      Outcome AppError (List Account) → Exec AppError (List (Account × Outcome AppError (Unit {0})))
  refresh_listed (ok accounts) = refresh_each accounts
  refresh_listed (err e) = pure ((dummy_account, err e) ∷ [])
  refresh_listed (panic text) = crash text

  -- `refresh_all`
  unfoldable pub refresh_all : Exec AppError (List (Account × Outcome AppError (Unit {0})))
  unfolding refresh_listed
  refresh_all = do listed ← attempt (Accounts.list_all host); refresh_listed listed

  -- `Utc::now() - Duration::days(n)`, which panics outside chrono's times
  unfoldable pub cutoff : ℕ → ℤ → Exec AppError ℕ
  cutoff now (pos n) =
      if leb (n * day) now then pure (now - n * day) else crash "`DateTime - TimeDelta` overflowed"
  cutoff now (negsuc n) = add_time host now (suc n * day)

  -- The loop of `refresh_stale`: how many refreshes returned.
  unfoldable pub refresh_ids : List String → Exec AppError ℕ
  refresh_ids [] = pure 0
  refresh_ids (id ∷ rest) = do
    result ← attempt {F = AppError} (refresh_account host m id)
    refreshed ← refresh_ids rest
    pure (count_ok result + refreshed)

  unfoldable pub refresh_inactive : Outcome AppError (List String) → Exec AppError ℕ
  refresh_inactive (ok ids) = refresh_ids ids
  refresh_inactive (err e) = pure 0
  refresh_inactive (panic text) = crash text

  -- `refresh_stale`
  unfoldable pub refresh_stale : ℤ → Exec AppError ℕ
  unfolding refresh_inactive cutoff
  refresh_stale inactivity_days = do
    now ← ask host.utc_now
    limit ← cutoff now inactivity_days
    ids ← attempt (Tokens.list_inactive host limit)
    refresh_inactive ids

  -- `disconnect`
  unfoldable pub disconnect : Account → Exec AppError (Unit {0})
  disconnect account = do
    Tokens.delete host account.id
    Accounts.set_status host account.tenant_id account.id disconnected
