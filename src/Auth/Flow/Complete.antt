-- ===== src/Auth/Flow/Complete.antt =====
-- An OAuth flow that completes (`complete_flow` of src/auth/token.rs).
use uni_mail.Common.{
  ℕ, ◌+◌, ◌≡◌, refl, sym, ap, ◌∙◌, String, true, false, Option, none, some, find, arith,
}
use mathlib.Core.Option
use uni_mail.Error.{Outcome, ok, err, panic, AppError}
use uni_mail.Exec.{World, on_error}
use uni_mail.Exec.Inversion.{>>=-run, attempt-run, or_error-run, map_err-eq-ok}
use uni_mail.Host.{Host}
use uni_mail.Storage.Models.{Account, active}
use uni_mail.Storage.Crypto.Laws.{HasCipher}
use uni_mail.Storage.Tokens
use uni_mail.Storage.Tokens.{StoredToken, owned_by, has_account}
use uni_mail.Storage.Tokens.Laws.{
  HasCodecs, get-upsert, upsert_guards, IsFourDigit, IsReadable, HasReadableTimes,
}
use uni_mail.Storage.Accounts
use uni_mail.Storage.Accounts.{now}
use uni_mail.Storage.Accounts.Frame.{upsert-accounts}
use uni_mail.Storage.Accounts.Laws.{get_by_email_sound}
use uni_mail.Storage.Flows
use uni_mail.Storage.Flows.{PendingFlow}
use uni_mail.Auth.Oauth.{TokenSet, exchange_code}
use uni_mail.Auth.Token.{join, TokenManager, ResolvedIdentity, to_stored}
use uni_mail.Auth.Flow.{
  connected_account, create_missing, write_connection, store_connection, complete_flow, flow_error,
}

module _ (host : Host) where
  -- The account is one of the tenant, for the identity, and active.
  abbrev pub IsFor : String → ResolvedIdentity → Account → Type 0
  IsFor tenant identity a =
      (a.tenant_id ≡ tenant)
      × (host.sql_lower a.email_address ≡ host.sql_lower identity.email)
      × (a.display_name ≡ identity.display_name)
      × (a.status ≡ active)

  -- The account is in the table, with a token made from the token set and the refresh token.
  abbrev pub IsConnected : TokenManager → TokenSet → String → Account → World → Type 0
  IsConnected m set refresh_token a w =
      (has_account a.id w.accounts ≡ true)
      × (token : StoredToken) × ((Tokens.get host m.key a.id w).0 ≡ ok (some token))
      × (token.access_token ≡ set.access_token)
      × (token.refresh_token ≡ refresh_token)
      × (token.expires_at ≡ set.expires_at)

module _ (host : Host) (m : TokenManager) where
  pub connected_account-IsFor :
      (known : Outcome AppError Account) (tenant : String) (identity : ResolvedIdentity)
      (a : Account) (w w₀ : World)
      → (Accounts.get_by_email host tenant identity.email w₀).0 ≡ known
      → (connected_account host m known tenant identity w).0 ≡ ok a
      → IsFor host tenant identity a
  unfolding connected_account now
  connected_account-IsFor (ok existing) tenant identity a w w₀ e h =
      let (same, email) = get_by_email_sound host tenant identity.email existing w₀ e in
      let id : a ≡ record existing {
        display_name = identity.display_name;
        status = active;
        updated_at = host.to_rfc3339 (host.utc_now w.answers);
      } =
        cc in
      rw id (same, email, refl, refl)
  connected_account-IsFor (err (AppError.not_found _)) tenant identity a w w₀ e h = ground arith
  connected_account-IsFor (err (AppError.config _)) tenant identity a w w₀ e h = cc
  connected_account-IsFor (err (AppError.auth _)) tenant identity a w w₀ e h = cc
  connected_account-IsFor (err (AppError.token_expired _)) tenant identity a w w₀ e h = cc
  connected_account-IsFor (err (AppError.provider _)) tenant identity a w w₀ e h = cc
  connected_account-IsFor (err (AppError.storage _)) tenant identity a w w₀ e h = cc
  connected_account-IsFor (err (AppError.invalid_request _)) tenant identity a w w₀ e h = cc
  connected_account-IsFor (err (AppError.io _)) tenant identity a w w₀ e h = cc
  connected_account-IsFor (err (AppError.internal _)) tenant identity a w w₀ e h = cc
  connected_account-IsFor (panic text) tenant identity a w w₀ e h = cc

  write_connection-IsConnected :
      (laws : HasCipher host m.key) (codecs : HasCodecs host) (a b : Account) (stored : StoredToken)
      (known : Outcome AppError Account) (w : World)
      → HasReadableTimes codecs stored
      → (write_connection host m a stored known w).0 ≡ ok b
      → (write_connection host m a stored known w).1.poisoned ≡ false
      → host.sql_fault (write_connection host m a stored known w).1.answers ≡ none
      → (b ≡ a)
        × (has_account a.id (write_connection host m a stored known w).1.accounts ≡ true)
        × ((Tokens.get host m.key a.id (write_connection host m a stored known w).1).0
            ≡ ok (some stored))
  unfolding write_connection
  write_connection-IsConnected laws codecs a b stored known w times done free healthy =
      let (_, made, e₁, h₁) = >>=-run (create_missing host m known a) _ w done in
      let w₁ = (create_missing host m known a w).1 in
      let (_, wrote, e₂, h₂) = >>=-run (Tokens.upsert host m.key a.id stored) _ w₁ h₁ in
      let w₂ = (Tokens.upsert host m.key a.id stored w₁).1 in
      let end : (write_connection host m a stored known w).1 ≡ w₂ =
        ap (λ (p : Outcome AppError Account × World). p.1) (e₁ ∙ e₂) in
      let (clean, works, owner) = upsert_guards host m.key a.id laws stored w₁ wrote in
      let same : a ≡ b = cc in
      (
        sym same,
        rw (end, upsert-accounts host m.key a.id stored w₁) owner,
        ap (λ (p : Outcome AppError (Option StoredToken) × World). p.0)
            (get-upsert host m.key a.id laws codecs stored w₁ _ times wrote free healthy
              (ap (λ (v : World). find (owned_by a.id) v.tokens) end)),
      )

  store_connection-IsConnected :
      (laws : HasCipher host m.key) (codecs : HasCodecs host) (tenant : String)
      (identity : ResolvedIdentity) (set : TokenSet) (refresh_token : String) (a : Account)
      (w w' : World) (clock : (n : ℕ) → IsFourDigit codecs (host.utc_now n))
      → IsReadable codecs set.expires_at
      → store_connection host m tenant identity set refresh_token w ≡ (ok a, w')
      → w'.poisoned ≡ false
      → host.sql_fault w'.answers ≡ none
      → IsFor host tenant identity a × IsConnected host m set refresh_token a w'
  unfolding store_connection to_stored
  store_connection-IsConnected laws codecs tenant identity set refresh_token a w w' clock readable
        run free healthy =
      let done = ap (λ (p : Outcome AppError Account × World). p.0) run in
      let lookup = Accounts.get_by_email host tenant identity.email in
      let (e₁, h₁) = attempt-run lookup _ w done in
      let w₁ = (lookup w).1 in
      let (account, chosen, e₂, h₂) =
        >>=-run (connected_account host m (lookup w).0 tenant identity) _ w₁ h₁ in
      let w₂ = (connected_account host m (lookup w).0 tenant identity w₁).1 in
      let w₃ : World = record w₂ { answers = w₂.answers + 1 + 1 } in
      let stored : StoredToken = record {
        access_token = set.access_token;
        refresh_token = refresh_token;
        scope = Option.map join set.scopes;
        expires_at = set.expires_at;
        last_used_at = some (host.utc_now w₂.answers);
        updated_at = host.utc_now (w₂.answers + 1);
      } in
      let known = Accounts.get host tenant account.id in
      let (e₃, h₃) = attempt-run known (write_connection host m account stored) w₃ h₂ in
      let w₄ = (known w₃).1 in
      let end : w' ≡ (write_connection host m account stored (known w₃).0 w₄).1 =
        ap (λ (p : Outcome AppError Account × World). p.1) (sym run ∙ e₁ ∙ e₂ ∙ e₃) in
      let (same, there, read) =
        write_connection-IsConnected laws codecs account a stored (known w₃).0 w₄
          (readable, clock w₂.answers, clock (w₂.answers + 1)) h₃ (rw (← end) free)
          (rw (← end) healthy) in
      (
        rw same (connected_account-IsFor (lookup w).0 tenant identity account w₁ w refl chosen),
        (rw (same, end) there, stored, rw (same, end) read, refl, refl, refl),
      )

  -- A flow that completes with an account was pending under its state, the code was exchanged with
  -- that flow's verifier for a token set with a refresh token, and the access token resolved to an
  -- identity. The account that is returned belongs to the tenant that began the flow, has the
  -- identity's email up to letter case and its display name, and is active; a row with its id is in the
  -- table of accounts, and a read of its token gives the access token, the refresh token and the
  -- expiry of the token set. The cipher and the codecs behave as documented, the clock and the
  -- token set's expiry are in the years 0 to 9999, and at the read the lock is not poisoned and the SQL
  -- engine does not fail.
  pub complete_flow_connects :
      (laws : HasCipher host m.key) (codecs : HasCodecs host) (code state : String) (a : Account)
      (w w' : World) (clock : (n : ℕ) → IsFourDigit codecs (host.utc_now n))
      → ((flow : PendingFlow) (set : TokenSet)
          → (Flows.take host m.key state w).0 ≡ ok flow
          → (exchange_code host m.oauth code flow.verifier (Flows.take host m.key state w).1).0
            ≡ ok set
          → IsReadable codecs set.expires_at)
      → complete_flow host m code state w ≡ (ok a, w')
      → w'.poisoned ≡ false
      → host.sql_fault w'.answers ≡ none
      → (flow : PendingFlow) × (set : TokenSet) × (refresh_token : String)
        × (identity : ResolvedIdentity) × ((Flows.take host m.key state w).0 ≡ ok flow)
        × ((exchange_code host m.oauth code flow.verifier (Flows.take host m.key state w).1).0
            ≡ ok set)
        × (set.refresh_token ≡ some refresh_token)
        × ((m.profile.resolve set.access_token
              (exchange_code host m.oauth code flow.verifier (Flows.take host m.key state w).1).1).0
            ≡ ok identity)
        × IsFor host flow.tenant_id identity a
        × IsConnected host m set refresh_token a w'
  unfolding complete_flow
  complete_flow_connects laws codecs code state a w w' clock readable run free healthy =
      let done = ap (λ (p : Outcome AppError Account × World). p.0) run in
      let (flow, taken, e₁, h₁) =
        >>=-run (on_error flow_error (Flows.take host m.key state)) _ w done in
      let w₁ = (Flows.take host m.key state w).1 in
      let (set, exchanged, e₂, h₂) =
        >>=-run (exchange_code host m.oauth code flow.verifier) _ w₁ h₁ in
      let w₂ = (exchange_code host m.oauth code flow.verifier w₁).1 in
      let (secret, given, e₃, h₃) = or_error-run set.refresh_token _ _ w₂ h₂ in
      let (identity, resolved, e₄, h₄) = >>=-run (m.profile.resolve set.access_token) _ w₂ h₃ in
      let w₃ = (m.profile.resolve set.access_token w₂).1 in
      let (for, connected) =
        store_connection-IsConnected laws codecs flow.tenant_id identity set secret a w₃ w' clock
          (readable flow set (map_err-eq-ok flow_error _ taken) exchanged)
          (sym (e₁ ∙ e₂ ∙ e₃ ∙ e₄) ∙ run) free healthy in
      (
        flow,
        set,
        secret,
        identity,
        map_err-eq-ok flow_error _ taken,
        exchanged,
        given,
        resolved,
        for,
        connected,
      )
