-- ===== src/Api/Routes/Laws.antt =====
-- The handlers (src/api/routes.rs): failing lookups, and the unified inbox of a tenant.
use uni_mail.Common.{ℕ, ◌≡◌, ◌≤◌, refl, String, true, List, Option, length, arith, All}
use uni_mail.Error.{ok, err, AppError}
use uni_mail.Exec.{World}
use uni_mail.Exec.Inversion.{>>=-eq-ok}
use uni_mail.Host.{Host}
use uni_mail.Storage.Models.{Account}
use uni_mail.Storage.Accounts
use uni_mail.Provider.{UnifiedEmail, SendMailRequest}
use uni_mail.Provider.Inbox.Laws.{HasCalmListing, IsOwned, aggregate_lem, aggregate-IsOwned}
use uni_mail.Api.Routes.{
  AppState, page_limit, disconnect_account, list_emails, get_email, send_email, unified_inbox,
}

module _ (host : Host) (state : AppState) (tenant : String) where
  -- Where the lookup of an account for the tenant fails, disconnecting it, listing or reading its
  -- mail and sending from it fail with that error, and do nothing else.
  pub handlers_refuse :
      (id message_id : String) (limit : Option ℕ) (query : Option String) (body : SendMailRequest)
      (e : AppError) (w : World)
      → (Accounts.get host tenant id w).0 ≡ err e
      → (disconnect_account host state tenant id w ≡ (err e, (Accounts.get host tenant id w).1))
        × (list_emails host state tenant id limit query w
            ≡ (err e, (Accounts.get host tenant id w).1))
        × (get_email host state tenant id message_id w ≡ (err e, (Accounts.get host tenant id w).1))
        × (send_email host state tenant id body w ≡ (err e, (Accounts.get host tenant id w).1))
  unfolding disconnect_account list_emails get_email send_email
  handlers_refuse id message_id limit query body e w h =
      (rw h refl, rw h refl, rw h refl, rw h refl)

  -- A unified inbox that is returned has at most 200 messages, and each of them names an account
  -- that the tenant's listing gave, where listing messages never panics.
  pub unified_inbox_bound :
      (calm : HasCalmListing state.provider) (limit : Option ℕ) (inbox : List UnifiedEmail)
      (w : World)
      → (unified_inbox host state tenant limit w).0 ≡ ok inbox
      → (length inbox ≤ 200)
        × ((accounts : List Account) × ((Accounts.list host tenant w).0 ≡ ok accounts)
            × All (IsOwned accounts) inbox)
  unfolding unified_inbox page_limit
  unified_inbox_bound calm limit inbox w h =
      let (accounts, listed, h₁) = >>=-eq-ok (Accounts.list host tenant) _ w h in
      let w₁ = (Accounts.list host tenant w).1 in
      let n = page_limit limit in
      let (returned, sorted, kept, size) =
        aggregate_lem host state.provider calm accounts n (λ m. true) w₁ in
      (
        ground (arith, returned, size),
        (accounts, listed, aggregate-IsOwned host state.provider calm accounts n inbox w₁ h₁),
      )
