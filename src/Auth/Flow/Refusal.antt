-- ===== src/Auth/Flow/Refusal.antt =====
-- Completing an OAuth flow whose state is refused (`complete_flow` of src/auth/token.rs).
use uni_mail.Common.{ℕ, ◌≡◌, refl, String, List, arith}
use uni_mail.Error.{err}
use uni_mail.Exec.{World, lock}
use uni_mail.Host.{Host}
use uni_mail.Storage.Flows
use uni_mail.Storage.Flows.{FlowError}
use uni_mail.Auth.Token.{TokenManager}
use uni_mail.Auth.Flow.{flow_error, complete_flow}

module _ (host : Host) where
  take_frame :
      (key : List ℕ) (state : String) (w : World)
      → ((Flows.take host key state w).1.requests ≡ w.requests)
        × ((Flows.take host key state w).1.accounts ≡ w.accounts)
        × ((Flows.take host key state w).1.tokens ≡ w.tokens)
  unfolding Flows.take Flows.remove_row Flows.open_flow Flows.unix_now lock
  take_frame key state w = (ground arith, ground arith, ground arith)

  -- A flow whose state is refused (unknown, used before, expired, or unreadable) ends with the error
  -- for that refusal: no request is sent, so the code is not exchanged, and no account and no token
  -- is written.
  pub complete_flow_refuses :
      (m : TokenManager) (code state : String) (e : FlowError) (w : World)
      → (Flows.take host m.key state w).0 ≡ err e
      → ((complete_flow host m code state w).0 ≡ err (flow_error e))
        × ((complete_flow host m code state w).1.requests ≡ w.requests)
        × ((complete_flow host m code state w).1.accounts ≡ w.accounts)
        × ((complete_flow host m code state w).1.tokens ≡ w.tokens)
  unfolding complete_flow
  complete_flow_refuses m code state e w h =
      let (requests, accounts, tokens) = take_frame m.key state w in
      rw h (refl, requests, accounts, tokens)
