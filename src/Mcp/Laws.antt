-- ===== src/Mcp/Laws.antt =====
-- Resolving accounts (src/mcp/mod.rs).
use uni_mail.Common.{◌≡◌, ◌⊎◌, inl, inr, refl, ap, ◌∙◌, String}
use uni_mail.Error.{Outcome, ok, err, panic, AppError}
use uni_mail.Exec.{World, Database}
use uni_mail.Exec.Inversion.{attempt-run}
use uni_mail.Host.{Host}
use uni_mail.Storage.Models.{Account}
use uni_mail.Storage.Accounts
use uni_mail.Storage.Accounts.{has_id}
use uni_mail.Storage.Accounts.Frame.{get-db, get_by_email-db}
use uni_mail.Storage.Accounts.Removal.{IsInTable, get-IsInTable, get_by_email-IsInTable}
use uni_mail.Storage.Accounts.Laws.{get_sound, get_by_email_sound}
use uni_mail.Api.Routes.{AppState}
use uni_mail.Mcp.{or_by_email, resolve_in}

module _ (host : Host) (state : AppState) where
  -- What was looked up under a key: the account's id, or its email up to letter case.
  abbrev pub IsNamed : String → String → Account → Type 0
  IsNamed tenant key a =
      (a.tenant_id ≡ tenant)
      × ((a.id ≡ key) ⊎ (host.sql_lower a.email_address ≡ host.sql_lower key))

  by_id_or_email :
      (tenant key : String) (a : Account) (found : Outcome AppError Account) (w w' : World)
      → (Accounts.get host tenant key w).0 ≡ found
      → (or_by_email host state tenant key found w').0 ≡ ok a
      → IsNamed tenant key a
  unfolding or_by_email
  by_id_or_email tenant key a (ok b) w w' e h =
      let (same, id) = get_sound host tenant key a w (cc) in (same, inl id)
  by_id_or_email tenant key a (err x) w w' e h =
      let (same, email) = get_by_email_sound host tenant key a w' h in (same, inr email)
  by_id_or_email tenant key a (panic text) w w' e h = cc

  -- An account that is resolved from a key belongs to the tenant, and the key is its id or, up to
  -- letter case as SQLite's `lower` sees it, its email.
  pub resolve_in_sound :
      (tenant key : String) (a : Account) (w : World)
      → (resolve_in host state tenant key w).0 ≡ ok a
      → IsNamed tenant key a
  unfolding resolve_in
  resolve_in_sound tenant key a w h =
      let found = (Accounts.get host tenant key w).0 in
      by_id_or_email tenant key a found w (Accounts.get host tenant key w).1 refl
        (attempt-run (Accounts.get host tenant key) (or_by_email host state tenant key) w h).1

  or_by_email_row :
      (tenant key : String) (a : Account) (found : Outcome AppError Account) (w w' : World)
      → (Accounts.get host tenant key w).0 ≡ found
      → w'.accounts ≡ w.accounts
      → (or_by_email host state tenant key found w').0 ≡ ok a
      → IsInTable a w.accounts × ((or_by_email host state tenant key found w').1.db ≡ w'.db)
  unfolding or_by_email
  or_by_email_row tenant key a (ok b) w w' e same h = (get-IsInTable host tenant key a w (cc), refl)
  or_by_email_row tenant key a (err x) w w' e same h = (
    rw (← same) (get_by_email-IsInTable host tenant key a w' h),
    get_by_email-db host tenant key w',
  )
  or_by_email_row tenant key a (panic text) w w' e same h = cc

  -- Resolving reads only, and what it gives is in the table.
  pub resolve_in_row :
      (tenant key : String) (a : Account) (w : World)
      → (resolve_in host state tenant key w).0 ≡ ok a
      → IsInTable a w.accounts × ((resolve_in host state tenant key w).1.db ≡ w.db)
  unfolding resolve_in
  resolve_in_row tenant key a w h =
      let w₁ = (Accounts.get host tenant key w).1 in
      let (run, rest) =
        attempt-run (Accounts.get host tenant key) (or_by_email host state tenant key) w h in
      let same = get-db host tenant key w in
      let (there, kept) =
        or_by_email_row tenant key a (Accounts.get host tenant key w).0 w w₁ refl
          (ap (λ (d : Database). d.accounts) same) rest in
      (there, ap (λ (p : Outcome AppError Account × World). p.1.db) run ∙ kept ∙ same)
