-- ===== src/Storage/Accounts/Refinement.antt =====
-- The account store of src/storage/accounts.rs does what a directory of accounts does.
use uni_mail.Common.{◌≡◌, ℕ, String, false, List, map, none}
use uni_mail.Exec.{World}
use uni_mail.Host.{Host}
use uni_mail.Storage.Models.{Account}
use uni_mail.Storage.Accounts
use uni_mail.Storage.Accounts.{to_row, of_row, already_connected, found_rows}
use uni_mail.Storage.Accounts.Store.{AccountStore, sqlite_account_store, Call, call}
use uni_mail.Storage.Accounts.Spec.{Sql, spec}

-- SQLite's functions, seen on accounts.
abbrev pub sql_of : Host → Sql
sql_of host = record {
  lower = host.sql_lower;
  latest_first = λ d. map of_row (host.order_by_updated (map to_row d));
}

-- The store holds the directory, and can be used.
pub record Holds (w : World) (d : List Account) : Type 0 where
  pub free : w.poisoned ≡ false
  pub rows : w.accounts ≡ map to_row d

module _ (host : Host) (healthy : (n : ℕ) → host.sql_fault n ≡ none) where
  abbrev store : AccountStore
  store = sqlite_account_store host

  -- At some time, a call answers as the directory does, and leaves the directory that the call makes
  -- of it.
  abbrev Refines : Call → World → List Account → Type 0
  Refines c w d =
      (time : String) × ((call store c w).0 ≡ (spec (sql_of host) time c d).0)
      × Holds (call store c w).1 (spec (sql_of host) time c d).1
