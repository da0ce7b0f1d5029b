-- ===== src/Storage/Accounts/Store.antt =====
-- The trait of src/storage/accounts.rs, its SQLite implementation, and calls of it.
use uni_mail.Common.{String, Bool, List, [], ◌∷◌}
use uni_mail.Error.{Outcome, AppError}
use uni_mail.Exec.{World, Exec, ◌>>=◌, pure}
use uni_mail.Host.{Host}
use uni_mail.Storage.Models.{Account, AccountStatus}
use uni_mail.Storage.Accounts

-- `trait AccountStore`
pub record AccountStore : Type 0 where
  pub create : Account → Exec AppError (Unit {0})
  pub list : String → Exec AppError (List Account)
  pub get : String → String → Exec AppError Account
  pub get_by_email : String → String → Exec AppError Account
  pub set_status : String → String → AccountStatus → Exec AppError (Unit {0})
  pub delete : String → String → Exec AppError Bool
  pub list_all : Exec AppError (List Account)
  pub touch : String → Exec AppError (Unit {0})

-- `SqliteAccountStore::new`, with the trait's implementation
unfoldable pub sqlite_account_store : Host → AccountStore
sqlite_account_store host = record {
  create = Accounts.create host;
  list = Accounts.list host;
  get = Accounts.get host;
  get_by_email = Accounts.get_by_email host;
  set_status = Accounts.set_status host;
  delete = Accounts.delete host;
  list_all = Accounts.list_all host;
  touch = Accounts.touch host;
}

pub data Call : Type 0 where
  create : Account → Call
  list : String → Call
  get get_by_email : String → String → Call
  set_status : String → String → AccountStatus → Call
  delete : String → String → Call
  list_all : Call
  touch : String → Call

pub data Answer : Type 0 where
  done : Answer
  found : Account → Answer
  listed : List Account → Answer
  removed : Bool → Answer

unfoldable pub call : AccountStore → Call → Exec AppError Answer
call store (create a) = store.create a >>= λ _. pure done
call store (list tenant) = do accounts ← store.list tenant; pure (listed accounts)
call store (get tenant id) = do a ← store.get tenant id; pure (found a)
call store (get_by_email tenant email) = do a ← store.get_by_email tenant email; pure (found a)
call store (set_status tenant id status) = store.set_status tenant id status >>= λ _. pure done
call store (delete tenant id) = do gone ← store.delete tenant id; pure (removed gone)
call store list_all = do accounts ← store.list_all; pure (listed accounts)
call store (touch id) = store.touch id >>= λ _. pure done

-- Calls made one after the other, whether they succeed or not: what each of them answers.
unfoldable pub answers : AccountStore → List Call → World → List (Outcome AppError Answer)
unfolding call
answers store [] w = []
answers store (c ∷ calls) w = let (r, w') = call store c w in r ∷ answers store calls w'
