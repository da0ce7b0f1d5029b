-- ===== src/Storage/Returns.antt =====
-- The stores of src/storage return, and leave the database's lock free.
use uni_mail.Common.{ℕ, zero, suc, String, Bool, List}
use uni_mail.Exec.Returns.{Returns, Returns-writes, returns_rules}
use uni_mail.Host.{Host}
use uni_mail.Storage.Models.{Account, AccountRow, AccountStatus}
use uni_mail.Storage.Tokens
use uni_mail.Storage.Tokens.{StoredToken, has_account}
use uni_mail.Storage.Accounts
use uni_mail.Storage.Accounts.{to_row, conflicts, now, query_accounts, found_rows}

module _ (host : Host) where
  pub now-Returns : Returns (now host)
  unfolding now
  now-Returns = search returns_rules

  query-Returns : (rows : List AccountRow → List AccountRow) → Returns (query_accounts host rows)
  unfolding query_accounts
  query-Returns rows = search returns_rules depth 20

  pub list-Returns : (tenant : String) → Returns (Accounts.list host tenant)
  unfolding Accounts.list
  list-Returns tenant = search (returns_rules, query-Returns) depth 20

  pub list_all-Returns : Returns (Accounts.list_all host)
  unfolding Accounts.list_all
  list_all-Returns = search (returns_rules, query-Returns) depth 20

  pub get-Returns : (tenant id : String) → Returns (Accounts.get host tenant id)
  unfolding Accounts.get
  get-Returns tenant id = search (returns_rules, query-Returns) depth 20

  pub get_by_email-Returns :
      (tenant email : String) → Returns (Accounts.get_by_email host tenant email)
  unfolding Accounts.get_by_email
  get_by_email-Returns tenant email = search (returns_rules, query-Returns) depth 20

  accounts_insert-Returns : (row : AccountRow) → Returns (Accounts.insert_row row)
  unfolding Accounts.insert_row
  accounts_insert-Returns row = search (returns_rules, Returns-writes) depth 20

  pub create-Returns : (a : Account) → Returns (Accounts.create host a)
  unfolding Accounts.create
  create-Returns a = search (returns_rules, accounts_insert-Returns) depth 20

  found_rows-Returns : (n : ℕ) (id : String) → Returns (found_rows n id)
  found_rows-Returns zero id = search returns_rules
  found_rows-Returns (suc n) id = search returns_rules

  update-Returns :
      (p : AccountRow → Bool) (f : AccountRow → AccountRow) → Returns (Accounts.update p f)
  unfolding Accounts.update
  update-Returns p f = search (returns_rules, Returns-writes) depth 20

  pub set_status-Returns :
      (tenant id : String) (status : AccountStatus)
      → Returns (Accounts.set_status host tenant id status)
  unfolding Accounts.set_status
  set_status-Returns tenant id status =
      search (returns_rules, now-Returns, update-Returns, found_rows-Returns) depth 20

  pub accounts_delete-Returns : (tenant id : String) → Returns (Accounts.delete host tenant id)
  unfolding Accounts.delete Accounts.delete_rows
  accounts_delete-Returns tenant id = search (returns_rules, Returns-writes) depth 20

  pub tokens_delete-Returns : (id : String) → Returns (Tokens.delete host id)
  unfolding Tokens.delete
  tokens_delete-Returns id = search (returns_rules, Returns-writes) depth 20

  pub list_inactive-Returns : (limit : ℕ) → Returns (Tokens.list_inactive host limit)
  unfolding Tokens.list_inactive
  list_inactive-Returns limit = search returns_rules depth 20
