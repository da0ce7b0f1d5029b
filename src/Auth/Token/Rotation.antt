-- ===== src/Auth/Token/Rotation.antt =====
-- The token that a refresh stores (`refresh_account` of src/auth/token.rs).
use mathlib.Core.Option
use uni_mail.Common.{ℕ, ◌+◌, ◌≡◌, refl, ap, String, false, Option, none, some, ◌∙◌, find}
use uni_mail.Error.{Outcome, ok, AppError}
use uni_mail.Exec.{World}
use uni_mail.Exec.Inversion.{>>=-run, or_error-run}
use uni_mail.Host.{Host}
use uni_mail.Storage.Crypto.Laws.{HasCipher}
use uni_mail.Storage.Tokens
use uni_mail.Storage.Tokens.{StoredToken, owned_by}
use uni_mail.Storage.Tokens.Laws.{HasCodecs, IsFourDigit, IsReadable, get-upsert}
use uni_mail.Auth.Oauth.{TokenSet, refresh}
use uni_mail.Auth.Concurrent.{renew}
use uni_mail.Auth.Token.{
  TokenManager, join, to_stored, account_lock, not_connected, refresh_account,
}

-- What is stored for a token set: the new refresh token, or the old one if none was given.
abbrev pub IsStoredFrom : StoredToken → TokenSet → StoredToken → Type 0
IsStoredFrom current set token =
    (token.access_token ≡ set.access_token)
    × (token.refresh_token ≡ Option.get_or set.refresh_token current.refresh_token)
    × (token.expires_at ≡ set.expires_at)
    × (token.scope ≡ Option.map join set.scopes)

module _ (host : Host) (m : TokenManager) (account_id : String) where
  -- A renewal that returned: what the endpoint answered, and what a read of the table then gives.
  pub renew_stores :
      (laws : HasCipher host m.key) (codecs : HasCodecs host) (current : StoredToken) (w w' : World)
      (clock : (n : ℕ) → IsFourDigit codecs (host.utc_now n))
      → ((set : TokenSet)
          → (refresh host m.oauth current.refresh_token w).0 ≡ ok set
          → IsReadable codecs set.expires_at)
      → (renew host m account_id current w).0 ≡ ok tt
      → w'.poisoned ≡ false
      → host.sql_fault w'.answers ≡ none
      → find (owned_by account_id) w'.tokens
        ≡ find (owned_by account_id) (renew host m account_id current w).1.tokens
      → (set : TokenSet) × (token : StoredToken) × ((refresh host m.oauth current.refresh_token w).0
          ≡ ok set)
        × IsStoredFrom current set token
        × (Tokens.get host m.key account_id w'
            ≡ (ok (some token), record w' { answers = w'.answers + 1 }))
  unfolding renew to_stored
  renew_stores laws codecs current w w' clock readable done free healthy same =
      let (set, answer, run, stored) =
        >>=-run (refresh host m.oauth current.refresh_token) _ w done in
      let w₁ = (refresh host m.oauth current.refresh_token w).1 in
      let token : StoredToken = record {
        access_token = set.access_token;
        refresh_token = Option.get_or set.refresh_token current.refresh_token;
        scope = Option.map join set.scopes;
        expires_at = set.expires_at;
        last_used_at = some (host.utc_now w₁.answers);
        updated_at = host.utc_now (w₁.answers + 1);
      } in
      (
        set,
        token,
        answer,
        (refl, refl, refl, refl),
        get-upsert host m.key account_id laws codecs token
            (record w₁ { answers = w₁.answers + 1 + 1 }) w'
            (readable set answer, clock w₁.answers, clock (w₁.answers + 1)) stored free healthy
            (same
              ∙ ap
                  (λ (p : Outcome AppError (Unit {0}) × World).
                    find (owned_by account_id) p.1.tokens)
                  run),
      )

-- A refresh that returned has read a token, and renewed it.
pub refresh_account_runs :
    (host : Host) (m : TokenManager) (account_id : String) (w : World)
    → (refresh_account host m account_id w).0 ≡ ok tt
    → (let w₂ = (Tokens.get host m.key account_id (account_lock host m account_id w).1).1 in
        (current : StoredToken) × ((Tokens.get host m.key account_id
            (account_lock host m account_id w).1).0
          ≡ ok (some current))
        × (refresh_account host m account_id w ≡ renew host m account_id current w₂)
        × ((renew host m account_id current w₂).0 ≡ ok tt))
unfolding refresh_account renew
refresh_account_runs host m account_id w done =
    let w₁ = (account_lock host m account_id w).1 in
    let (lock, given, e₀, h₀) = >>=-run (account_lock host m account_id) _ w done in
    let (found, read, e₁, h₁) = >>=-run (Tokens.get host m.key account_id) _ w₁ h₀ in
    let (current, there, e₂, h₂) =
      or_error-run found not_connected _ (Tokens.get host m.key account_id w₁).1 h₁ in
    (current, rw there at read, e₀ ∙ e₁ ∙ e₂, h₂)

module _ (host : Host) (m : TokenManager) (account_id : String) (w : World) where
  -- The refresh with the token that was stored gave this token set.
  abbrev pub IsAnswer : StoredToken → TokenSet → Type 0
  IsAnswer current set =
      let w₁ = (account_lock host m account_id w).1 in
      let w₂ = (Tokens.get host m.key account_id w₁).1 in
      ((Tokens.get host m.key account_id w₁).0 ≡ ok (some current))
      × ((refresh host m.oauth current.refresh_token w₂).0 ≡ ok set)

  -- After a refresh that returned, reading the account's token gives the one made from the answer
  -- to a refresh with the stored refresh token: its access token, its expiry, its scopes, and its
  -- refresh token if it has one, else the refresh token from before. The cipher and the codecs behave
  -- as documented, the clock and the answer's expiry are in the years 0 to 9999, and at the read the
  -- lock is not poisoned and the SQL engine does not fail.
  pub refresh_account_stores :
      (laws : HasCipher host m.key) (codecs : HasCodecs host)
      (clock : (n : ℕ) → IsFourDigit codecs (host.utc_now n))
      → ((current : StoredToken) (set : TokenSet)
          → IsAnswer current set
          → IsReadable codecs set.expires_at)
      → (refresh_account host m account_id w).0 ≡ ok tt
      → (refresh_account host m account_id w).1.poisoned ≡ false
      → host.sql_fault (refresh_account host m account_id w).1.answers ≡ none
      → (current : StoredToken) × (set : TokenSet) × (token : StoredToken) × IsAnswer current set
        × IsStoredFrom current set token
        × ((Tokens.get host m.key account_id (refresh_account host m account_id w).1).0
            ≡ ok (some token))
  refresh_account_stores laws codecs clock readable done free healthy =
      let w₂ = (Tokens.get host m.key account_id (account_lock host m account_id w).1).1 in
      let (current, read, run, renewed) = refresh_account_runs host m account_id w done in
      let (set, token, answer, same, stored) =
        renew_stores host m account_id laws codecs current w₂
          (refresh_account host m account_id w).1 clock
          (λ set answer. readable current set (read, answer)) renewed free healthy
          (ap (λ (p : Outcome AppError (Unit {0}) × World). find (owned_by account_id) p.1.tokens)
            run) in
      (
        current,
        set,
        token,
        (read, answer),
        same,
        ap (λ (p : Outcome AppError (Option StoredToken) × World). p.0) stored,
      )
