-- ===== src/Auth/Batch/Keeping.antt =====
-- Invariants of the database under refreshes of many accounts, beginning a flow and disconnecting
-- (src/auth/token.rs).
use uni_mail.Common.{ℕ, String, List, [], ◌∷◌, ℤ, pos, negsuc}
use uni_mail.Error.{Outcome, ok, err, panic, AppError}
use uni_mail.Exec.{Database}
use uni_mail.Exec.Keeps.{Keeps, Keeps-if, Keeps-bind, Keeps-attempt, Keeps-pure, keeps_rules}
use uni_mail.Host.{Host}
use uni_mail.Storage.Models.{Account}
use uni_mail.Storage.Keeping.{KeepsStores}
use uni_mail.Storage.Reads.{list_inactive-Keeps, list_all-Keeps}
use uni_mail.Auth.Token.{TokenManager}
use uni_mail.Auth.Flow.{begin_flow}
use uni_mail.Auth.Batch.{
  refresh_each, refresh_listed, refresh_all, cutoff, refresh_ids, refresh_inactive, refresh_stale,
  disconnect,
}
use uni_mail.Auth.Keeping.{add_time-Keeps, authorize_url-Keeps, refresh_account-Keeps}

module _ {P : Database → Type 0} (host : Host) (m : TokenManager)
    (stores : KeepsStores host m.key P) where
  pub begin_flow-Keeps : (tenant : String) → Keeps P (begin_flow host m tenant)
  unfolding begin_flow
  begin_flow-Keeps tenant = search (keeps_rules, authorize_url-Keeps, stores.flows_insert) depth 20

  refresh_each-Keeps : (accounts : List Account) → Keeps P (refresh_each host m accounts)
  unfolding refresh_each
  refresh_each-Keeps [] = search keeps_rules
  refresh_each-Keeps (a ∷ rest) =
      let later = refresh_each-Keeps rest in
      Keeps-if _ _ _ later (
        Keeps-bind _ _ (Keeps-attempt _ (refresh_account-Keeps host m a.id (stores.upsert a.id)))
          (λ _. Keeps-bind _ _ later (λ _. Keeps-pure _)))

  refresh_listed-Keeps : (r : Outcome AppError (List Account)) → Keeps P (refresh_listed host m r)
  unfolding refresh_listed
  refresh_listed-Keeps (ok accounts) = refresh_each-Keeps accounts
  refresh_listed-Keeps (err e) = search keeps_rules
  refresh_listed-Keeps (panic text) = search keeps_rules

  pub refresh_all-Keeps : Keeps P (refresh_all host m)
  unfolding refresh_all
  refresh_all-Keeps = search (keeps_rules, list_all-Keeps, refresh_listed-Keeps) depth 20

  cutoff-Keeps : (now : ℕ) (days : ℤ) → Keeps P (cutoff host m now days)
  unfolding cutoff
  cutoff-Keeps now (pos n) = search keeps_rules
  cutoff-Keeps now (negsuc n) = add_time-Keeps host now _

  refresh_ids-Keeps : (ids : List String) → Keeps P (refresh_ids host m ids)
  unfolding refresh_ids
  refresh_ids-Keeps [] = search keeps_rules
  refresh_ids-Keeps (id ∷ rest) =
      Keeps-bind _ _ (Keeps-attempt _ (refresh_account-Keeps host m id (stores.upsert id)))
        (λ _. Keeps-bind _ _ (refresh_ids-Keeps rest) (λ _. Keeps-pure _))

  refresh_inactive-Keeps :
      (r : Outcome AppError (List String)) → Keeps P (refresh_inactive host m r)
  unfolding refresh_inactive
  refresh_inactive-Keeps (ok ids) = refresh_ids-Keeps ids
  refresh_inactive-Keeps (err e) = search keeps_rules
  refresh_inactive-Keeps (panic text) = search keeps_rules

  pub refresh_stale-Keeps : (days : ℤ) → Keeps P (refresh_stale host m days)
  unfolding refresh_stale
  refresh_stale-Keeps days =
      search (keeps_rules, cutoff-Keeps, list_inactive-Keeps, refresh_inactive-Keeps) depth 20

  pub disconnect-Keeps : (a : Account) → Keeps P (disconnect host m a)
  unfolding disconnect
  disconnect-Keeps a = search (keeps_rules, stores.tokens_delete, stores.set_status) depth 20
