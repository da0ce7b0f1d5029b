-- ===== src/Auth/Flow/Keeping.antt =====
-- Invariants of the database under the reads of a flow that completes (src/auth/token.rs), and under
-- the page that answers its redirect (src/auth/callback.rs).
use uni_mail.Common.{String}
use uni_mail.Error.{Outcome, ok, err, panic, AppError}
use uni_mail.Exec.{Database}
use uni_mail.Exec.Keeps.{Keeps, keeps_rules}
use uni_mail.Host.{Host}
use uni_mail.Storage.Models.{Account}
use uni_mail.Storage.Reads.{now-Keeps}
use uni_mail.Auth.Token.{ProfileResolver, ResolvedIdentity, TokenManager}
use uni_mail.Auth.Flow.{connected_account}
use uni_mail.Auth.Callback.{page}

-- A resolver that looks up an identity and keeps the invariant.
abbrev pub KeepsDatabase : (Database → Type 0) → ProfileResolver → Type 0
KeepsDatabase P p = (access_token : String) → Keeps P (p.resolve access_token)

module _ {P : Database → Type 0} (host : Host) (m : TokenManager) where
  pub connected_account-Keeps :
      (known : Outcome AppError Account) (tenant : String) (identity : ResolvedIdentity)
      → Keeps P (connected_account host m known tenant identity)
  unfolding connected_account
  connected_account-Keeps (ok a) tenant identity = search (keeps_rules, now-Keeps) depth 20
  connected_account-Keeps (err (AppError.not_found _)) tenant identity =
      search (keeps_rules, now-Keeps) depth 20
  connected_account-Keeps (err (AppError.config _)) tenant identity = search keeps_rules
  connected_account-Keeps (err (AppError.auth _)) tenant identity = search keeps_rules
  connected_account-Keeps (err (AppError.token_expired _)) tenant identity = search keeps_rules
  connected_account-Keeps (err (AppError.provider _)) tenant identity = search keeps_rules
  connected_account-Keeps (err (AppError.storage _)) tenant identity = search keeps_rules
  connected_account-Keeps (err (AppError.invalid_request _)) tenant identity = search keeps_rules
  connected_account-Keeps (err (AppError.io _)) tenant identity = search keeps_rules
  connected_account-Keeps (err (AppError.internal _)) tenant identity = search keeps_rules
  connected_account-Keeps (panic text) tenant identity = search keeps_rules

module _ {P : Database → Type 0} where
  pub page-Keeps : (r : Outcome AppError Account) → Keeps P (page r)
  unfolding page
  page-Keeps (ok a) = search keeps_rules
  page-Keeps (err e) = search keeps_rules
  page-Keeps (panic text) = search keeps_rules
