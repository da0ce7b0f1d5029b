-- ===== src/Storage/Accounts.antt =====
-- src/storage/accounts.rs: the account store, scoped by tenant.
pub mod Frame
pub mod Laws
pub mod Removal
pub mod Store
pub mod Spec
pub mod Represents
pub mod Refinement
use Prim.Native.String.{◌++◌}
use uni_mail.Common.{
  ℕ, zero, suc, String, Bool, true, false, List, [], ◌∷◌, map, Option, none, some, not, ◌&&◌, ◌||◌,
  ◌==◌, find, select, any, length, push, if◌then◌else◌,
}
use uni_mail.Error.{AppError, storage, not_found, invalid_request}
use uni_mail.Exec.{
  Exec, Database, SqlError, constraint, engine, no_rows, ◌>>=◌, ◌>>◌, pure, fail, ask, reads,
  writes, or_error, on_error, statement, sql_message, sql_storage, lock,
}
use uni_mail.Host.{Host}
use uni_mail.Storage.Models.{Account, AccountRow, AccountStatus, TokenRow, parse_status, as_str}

-- `storage::now()`
unfoldable pub now : Host → Exec AppError String
now host = do t ← ask host.utc_now; pure (host.to_rfc3339 t)

-- The row that `create` writes, and the account that `query_accounts` reads from a row.
unfoldable pub to_row : Account → AccountRow
to_row a = record {
  id = a.id;
  tenant_id = a.tenant_id;
  email_address = a.email_address;
  display_name = a.display_name;
  provider = a.provider;
  status = as_str a.status;
  created_at = a.created_at;
  updated_at = a.updated_at;
}

unfoldable pub of_row : AccountRow → Account
of_row r = record {
  id = r.id;
  tenant_id = r.tenant_id;
  email_address = r.email_address;
  display_name = r.display_name;
  provider = r.provider;
  status = parse_status r.status;
  created_at = r.created_at;
  updated_at = r.updated_at;
}

-- `query_accounts`: the rows that a SELECT gives, as accounts
unfoldable pub query_accounts :
    Host → (List AccountRow → List AccountRow) → Exec AppError (List Account)
unfolding of_row
query_accounts host rows =
    on_error sql_storage (statement host (reads (λ db. map of_row (rows db.accounts))))

-- `.into_iter().next()`
unfoldable pub first : List Account → Option Account
first [] = none
first (a ∷ rest) = some a

-- The WHERE clauses.
abbrev pub of_tenant : String → AccountRow → Bool
of_tenant tenant_id r = r.tenant_id == tenant_id

abbrev pub has_id : String → String → AccountRow → Bool
has_id tenant_id id r = (r.tenant_id == tenant_id) && (r.id == id)

abbrev pub has_email : Host → String → String → AccountRow → Bool
has_email host tenant_id email r =
    (r.tenant_id == tenant_id) && (host.sql_lower r.email_address == host.sql_lower email)

-- The primary key and UNIQUE (tenant_id, email_address).
unfoldable pub conflicts : AccountRow → AccountRow → Bool
conflicts a r =
    (r.id == a.id) || ((r.tenant_id == a.tenant_id) && (r.email_address == a.email_address))

abbrev already_connected : Account → SqlError → AppError
already_connected a (constraint _) =
    invalid_request ("account " ++ a.email_address ++ " is already connected for this tenant")
already_connected a e = storage (sql_message e)

abbrev missing : String → AppError
missing key = not_found ("account " ++ key ++ " not found")

unfoldable pub insert_row : AccountRow → Exec SqlError (Unit {0})
unfolding conflicts
insert_row row = do
  taken ← reads (λ db. any (conflicts row) db.accounts)
  if taken
      then fail (constraint "UNIQUE constraint failed")
      else writes (λ db. record db { accounts = push db.accounts row })

-- `create`
unfoldable pub create : Host → Account → Exec AppError (Unit {0})
unfolding insert_row to_row
create host account = do
  lock
  on_error (already_connected account) (statement host (insert_row (to_row account)))

-- `list`
unfoldable pub list : Host → String → Exec AppError (List Account)
list host tenant_id = do
  lock
  query_accounts host (λ rows. host.order_by_updated (select (of_tenant tenant_id) rows))

-- `get`
unfoldable pub get : Host → String → String → Exec AppError Account
get host tenant_id id = do
  lock
  found ← query_accounts host (select (has_id tenant_id id))
  or_error (first found) (missing id)

-- `get_by_email`
unfoldable pub get_by_email : Host → String → String → Exec AppError Account
get_by_email host tenant_id email = do
  lock
  found ← query_accounts host (select (has_email host tenant_id email))
  or_error (first found) (missing email)

-- An UPDATE of the rows that pass a test, with their number.
unfoldable pub update_rows :
    (AccountRow → Bool) → (AccountRow → AccountRow) → List AccountRow → List AccountRow
update_rows p f [] = []
update_rows p f (r ∷ rs) = (if p r then f r else r) ∷ update_rows p f rs

unfoldable pub update : (AccountRow → Bool) → (AccountRow → AccountRow) → Exec SqlError ℕ
unfolding update_rows
update p f = do
  n ← reads (λ db. length (select p db.accounts))
  writes (λ db. record db { accounts = update_rows p f db.accounts })
  pure n

abbrev pub found_rows : ℕ → String → Exec AppError (Unit {0})
found_rows zero id = fail (missing id)
found_rows (suc n) id = pure tt

-- `set_status`
unfoldable pub set_status : Host → String → String → AccountStatus → Exec AppError (Unit {0})
unfolding update
set_status host tenant_id id status = do
  time ← now host
  lock
  n ← on_error sql_storage (
      statement host (
        update (has_id tenant_id id) (λ r. record r { status = as_str status; updated_at = time })))
  found_rows n id

-- The rows of `tokens` that survive deleting the accounts that pass a test (ON DELETE CASCADE).
unfoldable pub cascade : (AccountRow → Bool) → List AccountRow → List TokenRow → List TokenRow
cascade p accounts =
    select (λ t. not (any (λ (a : AccountRow). p a && (a.id == t.account_id)) accounts))

unfoldable pub delete_rows : (AccountRow → Bool) → Exec SqlError ℕ
unfolding cascade
delete_rows p = do
  n ← reads (λ db. length (select p db.accounts))
  writes (λ db. record db {
    accounts = select (λ r. not (p r)) db.accounts;
    tokens = cascade p db.accounts db.tokens;
  })
  pure n

abbrev positive : ℕ → Bool
positive zero = false
positive (suc n) = true

-- `delete`: whether a row was removed
unfoldable pub delete : Host → String → String → Exec AppError Bool
unfolding delete_rows
delete host tenant_id id = do
  lock
  n ← on_error sql_storage (statement host (delete_rows (has_id tenant_id id)))
  pure (positive n)

-- `list_all`
unfoldable pub list_all : Host → Exec AppError (List Account)
list_all host = do lock; query_accounts host host.order_by_updated

-- `touch`
unfoldable pub touch : Host → String → Exec AppError (Unit {0})
unfolding update
touch host id = do
  time ← now host
  lock
  on_error sql_storage
      (statement host (update (λ r. r.id == id) (λ r. record r { updated_at = time })))
  pure tt
