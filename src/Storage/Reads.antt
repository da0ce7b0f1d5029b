-- ===== src/Storage/Reads.antt =====
-- What the stores only read, under any invariant of the database.
use uni_mail.Common.{ℕ, String, List, Option, none, some}
use uni_mail.Exec.{Database}
use uni_mail.Exec.Keeps.{Keeps, keeps_rules}
use uni_mail.Host.{Host}
use uni_mail.Storage.Models.{AccountRow, TokenRow, FlowRow}
use uni_mail.Storage.Crypto.{encrypt}
use uni_mail.Storage.Tokens
use uni_mail.Storage.Tokens.{StoredToken, time_or_now, decode_row, decode_found, has_account}
use uni_mail.Storage.Accounts
use uni_mail.Storage.Accounts.{to_row, conflicts, now, query_accounts, found_rows}
use uni_mail.Storage.Flows.{unix_now, open_flow}

module _ {P : Database → Type 0} (host : Host) where
  pub encrypt-Keeps : (key plaintext : List ℕ) → Keeps P (encrypt host key plaintext)
  unfolding encrypt
  encrypt-Keeps key plaintext = search keeps_rules

  time_or_now-Keeps : (o : Option ℕ) → Keeps P (time_or_now host o)
  unfolding time_or_now
  time_or_now-Keeps none = search keeps_rules
  time_or_now-Keeps (some t) = search keeps_rules

  decode_found-Keeps :
      (key : List ℕ) (found : Option TokenRow) → Keeps P (decode_found host key found)
  unfolding decode_found decode_row
  decode_found-Keeps key none = search keeps_rules
  decode_found-Keeps key (some row) = search (keeps_rules, time_or_now-Keeps) depth 20

  pub tokens_get-Keeps : (key : List ℕ) (id : String) → Keeps P (Tokens.get host key id)
  unfolding Tokens.get
  tokens_get-Keeps key id = search (keeps_rules, decode_found-Keeps) depth 20

  pub list_inactive-Keeps : (limit : ℕ) → Keeps P (Tokens.list_inactive host limit)
  unfolding Tokens.list_inactive
  list_inactive-Keeps limit = search keeps_rules depth 20

  pub now-Keeps : Keeps P (now host)
  unfolding now
  now-Keeps = search keeps_rules

  pub query-Keeps : (rows : List AccountRow → List AccountRow) → Keeps P (query_accounts host rows)
  unfolding query_accounts
  query-Keeps rows = search keeps_rules depth 20

  pub list-Keeps : (tenant : String) → Keeps P (Accounts.list host tenant)
  unfolding Accounts.list
  list-Keeps tenant = search (keeps_rules, query-Keeps) depth 20

  pub list_all-Keeps : Keeps P (Accounts.list_all host)
  unfolding Accounts.list_all
  list_all-Keeps = search (keeps_rules, query-Keeps) depth 20

  pub get-Keeps : (tenant id : String) → Keeps P (Accounts.get host tenant id)
  unfolding Accounts.get
  get-Keeps tenant id = search (keeps_rules, query-Keeps) depth 20

  pub get_by_email-Keeps :
      (tenant email : String) → Keeps P (Accounts.get_by_email host tenant email)
  unfolding Accounts.get_by_email
  get_by_email-Keeps tenant email = search (keeps_rules, query-Keeps) depth 20

  pub unix_now-Keeps : (E : Type 0) → Keeps P (unix_now {E = E} host)
  unfolding unix_now
  unix_now-Keeps E = search keeps_rules

  pub open_flow-Keeps :
      (key : List ℕ) (row : FlowRow) (now : ℕ) → Keeps P (open_flow host key row now)
  unfolding open_flow
  open_flow-Keeps key row now = search keeps_rules depth 20
