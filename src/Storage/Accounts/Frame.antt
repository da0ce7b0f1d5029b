-- ===== src/Storage/Accounts/Frame.antt =====
-- What the operations of the account and token stores leave alone.
use uni_mail.Common.{ℕ, ◌≡◌, String, true, List, [], ◌∷◌, some, map, arith, eq_iff, any, select}
use uni_mail.Error.{ok}
use uni_mail.Exec.{World, lock}
use uni_mail.Host.{Host}
use uni_mail.Storage.Models.{Account, AccountRow}
use uni_mail.Storage.Crypto.{encrypt}
use uni_mail.Storage.Tokens
use uni_mail.Storage.Tokens.{StoredToken}
use uni_mail.Storage.Accounts.{
  to_row, of_row, query_accounts, first, conflicts, has_email, get, get_by_email, create,
  insert_row,
}

module _ (host : Host) where
  pub get_by_email-db :
      (tenant_id email : String) (w : World) → (get_by_email host tenant_id email w).1.db ≡ w.db
  unfolding get_by_email query_accounts lock
  get_by_email-db tenant_id email w = ground arith

  pub get-db : (tenant_id id : String) (w : World) → (get host tenant_id id w).1.db ≡ w.db
  unfolding get query_accounts lock
  get-db tenant_id id w = ground arith

  pub tokens_get-db :
      (key : List ℕ) (id : String) (w : World) → (Tokens.get host key id w).1.db ≡ w.db
  unfolding Tokens.get Tokens.decode_found Tokens.decode_row Tokens.time_or_now lock
  tokens_get-db key id w = ground arith

  pub tokens_get-requests :
      (key : List ℕ) (id : String) (w : World) → (Tokens.get host key id w).1.requests ≡ w.requests
  unfolding Tokens.get Tokens.decode_found Tokens.decode_row Tokens.time_or_now lock
  tokens_get-requests key id w = ground arith

  pub upsert-accounts :
      (key : List ℕ) (id : String) (token : StoredToken) (w : World)
      → (Tokens.upsert host key id token w).1.accounts ≡ w.accounts
  unfolding Tokens.upsert Tokens.insert_row lock encrypt
  upsert-accounts key id token w = ground arith

  -- A row whose key or email is taken is refused, whatever the engine does.
  pub create_conflict :
      (a : Account) (w : World)
      → any (conflicts (to_row a)) w.accounts ≡ true
      → (create host a w).0 ≡ ok tt
      → ⊥
  unfolding create insert_row lock
  create_conflict a w taken done = ground arith

  -- An account that a query by email returned keeps its key in the table.
  first-conflicts :
      (tenant_id email : String) (rows : List AccountRow) (existing a : Account)
      → first (map of_row (select (has_email host tenant_id email) rows)) ≡ some existing
      → a.id ≡ existing.id
      → any (conflicts (to_row a)) rows ≡ true
  unfolding first select any conflicts to_row of_row
  first-conflicts tenant_id email [] existing a h same = cc
  first-conflicts tenant_id email (r ∷ rows) existing a h same =
      ground (arith, first-conflicts tenant_id email rows existing a, eq_iff r.id a.id)

  pub get_by_email-conflicts :
      (tenant_id email : String) (w : World) (existing a : Account)
      → (get_by_email host tenant_id email w).0 ≡ ok existing
      → a.id ≡ existing.id
      → any (conflicts (to_row a)) w.accounts ≡ true
  unfolding get_by_email query_accounts lock
  get_by_email-conflicts tenant_id email w existing a h same =
      ground (arith, first-conflicts tenant_id email w.accounts existing a)
