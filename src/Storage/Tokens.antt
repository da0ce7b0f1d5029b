-- ===== src/Storage/Tokens.antt =====
-- src/storage/tokens.rs: the token store. Token texts are encrypted before they are written; times
-- are RFC 3339 texts in the table.
pub mod Laws
pub mod Found
pub mod Store
pub mod Refinement
pub mod Represents
pub mod Spec
use uni_mail.Common.{
  ℕ, String, Bool, List, [], ◌∷◌, map, Option, none, some, not, ◌==◌, find, select, any,
  if◌then◌else◌,
}
use mathlib.Core.Option
use Prim.Native.Nat.{Ordering}
use Prim.Native.String.{compare as compare_text}
use uni_mail.Error.{Outcome, ok, err, map_err, AppError, storage}
use uni_mail.Exec.{
  Exec, Database, SqlError, constraint, ◌>>=◌, ◌>>◌, pure, fail, lift, ask, reads, writes, on_error,
  statement, sql_storage, lock,
}
use uni_mail.Host.{Host}
use uni_mail.Storage.Models.{TokenRow, AccountRow}
use uni_mail.Storage.Crypto.{encrypt, decrypt}

-- A decrypted token set of one account.
pub record StoredToken : Type 0 where
  pub access_token : String
  pub refresh_token : String
  pub scope : Option String
  pub expires_at : Option ℕ
  pub last_used_at : Option ℕ
  pub updated_at : ℕ

abbrev pub owned_by : String → TokenRow → Bool
owned_by account_id row = row.account_id == account_id

-- `parse_time(&s)` of a nullable column
unfoldable pub parse_time : Host → Option String → Option ℕ
parse_time host none = none
parse_time host (some s) = host.parse_from_rfc3339 s

-- `parse_time(&updated_at).unwrap_or_else(Utc::now)`
unfoldable pub time_or_now : Host → Option ℕ → Exec AppError ℕ
time_or_now host (some t) = pure t
time_or_now host none = ask host.utc_now

-- Rust's `"access token is not UTF-8: {e}"` and its sibling.
abbrev pub not_utf8 : String → String → AppError
not_utf8 name e =
    storage (Prim.Native.String.◌++◌ name (Prim.Native.String.◌++◌ " token is not UTF-8: " e))

-- The part of `get` behind the query: decrypting and decoding one row.
unfoldable pub decode_row : Host → List ℕ → TokenRow → Exec AppError StoredToken
decode_row host key row = do
  access_bytes ← lift (map_err storage (decrypt host key row.access_token_encrypted))
  refresh_bytes ← lift (map_err storage (decrypt host key row.refresh_token_encrypted))
  access_token ← lift (map_err (not_utf8 "access") (host.from_utf8 access_bytes))
  refresh_token ← lift (map_err (not_utf8 "refresh") (host.from_utf8 refresh_bytes))
  updated_at ← time_or_now host (host.parse_from_rfc3339 row.updated_at)
  pure (record {
    access_token = access_token;
    refresh_token = refresh_token;
    scope = row.scope;
    expires_at = parse_time host row.expires_at;
    last_used_at = parse_time host row.last_used_at;
    updated_at = updated_at;
  })

unfoldable pub decode_found : Host → List ℕ → Option TokenRow → Exec AppError (Option StoredToken)
decode_found host key none = pure none
decode_found host key (some row) = do token ← decode_row host key row; pure (some token)

-- `SqliteTokenStore::get`
unfoldable pub get : Host → List ℕ → String → Exec AppError (Option StoredToken)
get host key account_id = do
  lock
  row ← on_error sql_storage (statement host (reads (λ db. find (owned_by account_id) db.tokens)))
  decode_found host key row

-- `INSERT … ON CONFLICT(account_id) DO UPDATE`: the account's row is replaced where it stands.
unfoldable pub put_row : TokenRow → List TokenRow → List TokenRow
put_row row [] = row ∷ []
put_row row (r ∷ rs) = if owned_by row.account_id r then row ∷ rs else r ∷ put_row row rs

abbrev pub has_account : String → List AccountRow → Bool
has_account id = any (λ a. a.id == id)

-- The statement of `upsert`, with its foreign key.
unfoldable pub insert_row : Host → TokenRow → Exec SqlError (Unit {0})
insert_row host row = do
  parent ← reads (λ db. has_account row.account_id db.accounts)
  if parent
      then writes (λ db. record db { tokens = put_row row db.tokens })
      else fail (constraint host.foreign_key_error)

-- `SqliteTokenStore::upsert`
unfoldable pub upsert : Host → List ℕ → String → StoredToken → Exec AppError (Unit {0})
upsert host key account_id token = do
  access_blob ← on_error storage (encrypt host key (host.as_bytes token.access_token))
  refresh_blob ← on_error storage (encrypt host key (host.as_bytes token.refresh_token))
  lock
  on_error sql_storage (
      statement host (
        insert_row host (record {
          account_id = account_id;
          access_token_encrypted = access_blob;
          refresh_token_encrypted = refresh_blob;
          scope = token.scope;
          expires_at = Option.map host.to_rfc3339 token.expires_at;
          last_used_at = Option.map host.to_rfc3339 token.last_used_at;
          updated_at = host.to_rfc3339 token.updated_at;
        })))

-- `SqliteTokenStore::delete`
unfoldable pub delete : Host → String → Exec AppError (Unit {0})
delete host account_id = do
  lock
  on_error sql_storage (
      statement host
        (writes (λ db. record db { tokens = select (λ r. not (owned_by account_id r)) db.tokens })))

-- `last_used_at IS NULL OR last_used_at < ?1`, an order of texts
unfoldable pub is_inactive : String → TokenRow → Bool
is_inactive cutoff row = elim row.last_used_at [
  | none ↦ Bool.true
  | some used ↦ elim (compare_text used cutoff) [ Ordering.lt ↦ Bool.true | _ ↦ Bool.false ]
]

-- `SqliteTokenStore::list_inactive`
unfoldable pub list_inactive : Host → ℕ → Exec AppError (List String)
list_inactive host cutoff = do
  lock
  let text = host.to_rfc3339 cutoff
  on_error sql_storage (
      statement host (
        reads (λ db.
          map (λ r. r.account_id) (host.order_inactive (select (is_inactive text) db.tokens)))))
