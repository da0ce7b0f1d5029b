-- ===== src/Tests/Source/Tokens.antt =====
-- The unit tests of src/storage/tokens.rs.
use Prim.Native.String.{◌++◌}
use uni_mail.Common.{
  ℕ, ◌-◌, ◌*◌, refl, Bool, true, false, List, [], ◌∷◌, Option, none, some, String, ◌==◌, any, find,
  select,
}
use uni_mail.Error.{AppError}
use uni_mail.Exec.{Exec, ◌>>=◌, ◌>>◌, ask, lock, statement}
use uni_mail.Host.{Host}
use uni_mail.Storage.Accounts
use uni_mail.Storage.Crypto.{encrypt, decrypt}
use uni_mail.Storage.Tokens
use uni_mail.Storage.Tokens.{StoredToken}
use uni_mail.Auth.Batch.{day}
use uni_mail.Auth.Oauth.{add_time, hour}
use uni_mail.Storage.Open.{open_in_memory}
use uni_mail.Tests.Source.{assert, unwrap, unwrap_some, Passes, replicate, lab, open_database}

-- A minimal parent account.
abbrev seed_account : Host → String → Exec AppError (Unit {0})
seed_account host id = do
  unwrap lock
  unwrap (
      statement host (
        Accounts.insert_row (record {
          id = id;
          tenant_id = "t";
          email_address = id ++ "@example.com";
          display_name = none;
          provider = "microsoft";
          status = "active";
          created_at = "now";
          updated_at = "now";
        })))

abbrev key : List ℕ
key = replicate 32 5

abbrev is : Option String → String → Bool
is none t = false
is (some s) t = s == t

abbrev upsert_and_get_round_trip : Host → Exec AppError (Unit {0})
upsert_and_get_round_trip host = do
  open_database
  seed_account host "acc-1"
  now ← ask host.utc_now
  expires_at ← add_time host now hour
  used ← ask host.utc_now
  updated ← ask host.utc_now
  unwrap (
      Tokens.upsert host key "acc-1" (record {
        access_token = "access-123";
        refresh_token = "refresh-456";
        scope = some "offline_access Mail.Read";
        expires_at = some expires_at;
        last_used_at = some used;
        updated_at = updated;
      }))
  found ← unwrap (Tokens.get host key "acc-1")
  got ← unwrap_some found
  assert (got.access_token == "access-123")
  assert (got.refresh_token == "refresh-456")
  assert (is got.scope "offline_access Mail.Read")

abbrev is_none : Option StoredToken → Bool
is_none none = true
is_none (some token) = false

abbrev missing_token_returns_none : Host → Exec AppError (Unit {0})
missing_token_returns_none host = do
  open_database
  found ← unwrap (Tokens.get host key "nope")
  assert (is_none found)

abbrev used_at : ℕ → ℕ → StoredToken
used_at last updated = record {
  access_token = "a";
  refresh_token = "r";
  scope = none;
  expires_at = none;
  last_used_at = some last;
  updated_at = updated;
}

abbrev only : List String → String → Bool
only (id ∷ []) t = id == t
only ids t = false

abbrev list_inactive_respects_cutoff : Host → Exec AppError (Unit {0})
list_inactive_respects_cutoff host = do
  open_database
  seed_account host "fresh"
  seed_account host "stale"
  now ← ask host.utc_now
  let cutoff = now - 90 * day
  used ← ask host.utc_now
  updated ← ask host.utc_now
  later ← ask host.utc_now
  unwrap (Tokens.upsert host key "fresh" (used_at used updated))
  unwrap (Tokens.upsert host key "stale" (used_at (cutoff - 1 * day) later))
  inactive ← unwrap (Tokens.list_inactive host cutoff)
  assert (only inactive "stale")

upsert_and_get_round_trip-Passes : Passes (upsert_and_get_round_trip lab)
unfolding open_in_memory Accounts.insert_row Tokens.upsert Tokens.insert_row Tokens.put_row
    Tokens.get Tokens.decode_found Tokens.decode_row Tokens.parse_time Tokens.time_or_now encrypt
    decrypt lock any find add_time
upsert_and_get_round_trip-Passes = refl

missing_token_returns_none-Passes : Passes (missing_token_returns_none lab)
unfolding open_in_memory Tokens.get Tokens.decode_found lock find
missing_token_returns_none-Passes = refl

list_inactive_respects_cutoff-Passes : Passes (list_inactive_respects_cutoff lab)
unfolding open_in_memory Accounts.insert_row Tokens.upsert Tokens.insert_row Tokens.put_row
    Tokens.list_inactive Tokens.is_inactive encrypt lock any select
list_inactive_respects_cutoff-Passes = refl
