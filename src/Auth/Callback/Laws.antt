-- ===== src/Auth/Callback/Laws.antt =====
-- The handler of the OAuth redirect (src/auth/callback.rs).
use uni_mail.Common.{◌≡◌, ◌≢◌, ◌⊎◌, true, false, Option, none, some, arith}
use uni_mail.Error.{Outcome, ok, AppError, is_ok}
use uni_mail.Exec.{World}
use uni_mail.Host.{Host}
use uni_mail.Storage.Models.{Account}
use uni_mail.Auth.Token.{TokenManager}
use uni_mail.Auth.Callback.{
  CallbackParams, CallbackState, Page, page, complete_callback, handle_callback, outcome,
}

module _ (host : Host) (m : TokenManager) where
  -- In CLI mode a handled redirect leaves the outcome of the flow for the command line and signals
  -- the shutdown; the page has status 200 exactly when that outcome is a connected account.
  pub handle_callback_lem :
      (st st' : CallbackState) (p : CallbackParams) (w : World) (shown : Page)
      (kept : Option (Outcome AppError Account))
      → st.slot ≡ some kept
      → (handle_callback host m st p w).0 ≡ ok (shown, st')
      → (outcome st' ≡ (complete_callback host m p w).0)
        × (st'.done ≡ false)
        × (((shown.status ≡ 200) × (is_ok (outcome st') ≡ true))
            ⊎ ((shown.status ≡ 400) × (is_ok (outcome st') ≡ false)))
  unfolding handle_callback outcome page
  handle_callback_lem st st' p w shown kept cli done = (ground arith, ground arith, ground arith)

  -- A redirect that reports an error, or lacks the code or the state, changes nothing and sends
  -- nothing: the flow that it belongs to stays pending.
  pub complete_callback_refuses :
      (p : CallbackParams) (w : World)
      → (p.error ≢ none) ⊎ (p.code ≡ none) ⊎ (p.state ≡ none)
      → (is_ok (complete_callback host m p w).0 ≡ false) × ((complete_callback host m p w).1 ≡ w)
  unfolding complete_callback
  complete_callback_refuses p w h = (ground arith, ground arith)
