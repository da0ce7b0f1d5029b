-- ===== src/Cli/Laws.antt =====
-- Removing an account (`remove_account` of src/cli/mod.rs).
use uni_mail.Common.{◌≡◌, sym, ap, ◌∙◌, String, true, List, Option, none, find, any}
use uni_mail.Error.{Outcome, ok, AppError}
use uni_mail.Exec.{World, Database}
use uni_mail.Exec.Inversion.{>>=-run}
use uni_mail.Host.{Host}
use uni_mail.Storage.Models.{Account}
use uni_mail.Storage.Tokens.{owned_by}
use uni_mail.Storage.Accounts
use uni_mail.Storage.Accounts.{has_id}
use uni_mail.Storage.Accounts.Removal.{IsInTable, any_of-IsInTable, delete_lem}
use uni_mail.Api.Routes.{AppState}
use uni_mail.Mcp.{resolve_in}
use uni_mail.Mcp.Laws.{IsNamed, resolve_in_sound, resolve_in_row}
use uni_mail.Cli.{tenant_or_default, remove_account}

module _ (host : Host) (state : AppState) where
  -- Removing an account that returned has removed one that was in the table and that the key names by
  -- id or by email within the tenant (the one given, or the default): afterwards the table has no row
  -- of that tenant with its id, and no token is stored under its id.
  pub remove_account_lem :
      (account : String) (tenant : Option String) (lines : List String) (w : World)
      → (remove_account host state account tenant w).0 ≡ ok lines
      → (a : Account) × IsInTable a w.accounts
        × IsNamed host state (tenant_or_default state tenant) account a
        × (find
              (has_id (tenant_or_default state tenant) a.id)
              (remove_account host state account tenant w).1.accounts
            ≡ none)
        × (find (owned_by a.id) (remove_account host state account tenant w).1.tokens ≡ none)
  unfolding remove_account
  remove_account_lem account tenant lines w h =
      let t = tenant_or_default state tenant in
      let (a, resolved, e₁, h₁) = >>=-run (resolve_in host state t account) _ w h in
      let w₁ = (resolve_in host state t account w).1 in
      let (gone, deleted, e₂, h₂) = >>=-run (Accounts.delete host t a.id) _ w₁ h₁ in
      let named = resolve_in_sound host state t account a w resolved in
      let (there, same) = resolve_in_row host state t account a w resolved in
      let there' : any (has_id t a.id) w₁.accounts ≡ true =
        ap (λ (d : Database). any (has_id t a.id) d.accounts) same
        ∙ ap (λ (s : String). any (has_id s a.id) w.accounts) (sym named.0)
        ∙ any_of-IsInTable a w.accounts there in
      let (rows, tokens) = delete_lem host t a.id gone w₁ deleted there' in
      let end = ap (λ (p : Outcome AppError (List String) × World). p.1) (e₁ ∙ e₂) in
      (
        a,
        there,
        named,
        ap (λ (v : World). find (has_id t a.id) v.accounts) end ∙ rows,
        ap (λ (v : World). find (owned_by a.id) v.tokens) end ∙ tokens,
      )
