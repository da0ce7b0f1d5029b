-- ===== src/Storage/Keeping.antt =====
-- What it takes for an invariant of the database to outlive all writes of the three stores: the
-- interface between the stores (src/storage) and whatever is built on them.
use uni_mail.Common.{ℕ, String, List}
use uni_mail.Exec.{Database}
use uni_mail.Exec.Keeps.{Keeps}
use uni_mail.Host.{Host}
use uni_mail.Storage.Models.{Account, AccountStatus}
use uni_mail.Storage.Tokens
use uni_mail.Storage.Tokens.{StoredToken}
use uni_mail.Storage.Accounts
use uni_mail.Storage.Flows

-- Each operation that writes keeps the invariant, with one master key.
pub record KeepsStores (host : Host) (key : List ℕ) (P : Database → Type 0) : Type 0 where
  pub upsert : (id : String) (token : StoredToken) → Keeps P (Tokens.upsert host key id token)
  pub tokens_delete : (id : String) → Keeps P (Tokens.delete host id)
  pub create : (a : Account) → Keeps P (Accounts.create host a)
  pub set_status :
      (tenant id : String) (status : AccountStatus)
      → Keeps P (Accounts.set_status host tenant id status)
  pub accounts_delete : (tenant id : String) → Keeps P (Accounts.delete host tenant id)
  pub flows_insert :
      (verifier tenant state : String) → Keeps P (Flows.insert host key verifier tenant state)
  pub take : (state : String) → Keeps P (Flows.take host key state)
