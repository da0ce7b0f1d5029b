-- ===== src/Auth/Concurrent/Races.antt =====
-- What runs beside a refresh without its lock (src/auth/token.rs).
use uni_mail.Common.{
  ℕ, ◌+◌, ◌≡◌, refl, ap, ◌∙◌, sym, String, Bool, true, List, find, Option, none, some, All, select,
  false,
}
use uni_mail.Error.{Outcome, ok, AppError}
use uni_mail.Exec.{World, Database, writes}
use uni_mail.Exec.Keeps.{Keeps, Keeps-writes, keeps_rules}
use uni_mail.Host.{Host}
use uni_mail.Storage.Models.{Account, AccountRow, TokenRow, disconnected, as_str}
use uni_mail.Storage.Crypto.Laws.{HasCipher}
use uni_mail.Storage.Tokens
use uni_mail.Storage.Tokens.{StoredToken, has_account, owned_by, put_row}
use uni_mail.Storage.Tokens.Laws.{HasCodecs, IsFourDigit, IsReadable, get-upsert, upsert_lem}
use uni_mail.Storage.Accounts.{has_id}
use uni_mail.Storage.Reads.{encrypt-Keeps}
use uni_mail.Auth.Oauth.{TokenSet, refresh}
use uni_mail.Auth.Keeping.{refresh-Keeps, to_stored-Keeps, should_write-Keeps}
use uni_mail.Auth.Token.{
  TokenManager, refresh_account, should_write, write_last_used, bump_last_used,
}
use uni_mail.Auth.Token.Rotation.{IsAnswer, IsStoredFrom, renew_stores, refresh_account_runs}
use uni_mail.Auth.Batch.{disconnect}
use uni_mail.Auth.Batch.Laws.{disconnect_lem}
use uni_mail.Auth.Concurrent.{renew}

-- The table of accounts is this one.
abbrev HasAccounts : List AccountRow → Database → Type 0
HasAccounts accounts db = db.accounts ≡ accounts

abbrev result : Outcome AppError (Unit {0}) × World → Outcome AppError (Unit {0})
result p = p.0

put-HasAccounts :
    (accounts : List AccountRow) (E : Type 0) (row : TokenRow)
    → Keeps
        (HasAccounts accounts)
        (writes {E = E} (λ db. record db { tokens = put_row row db.tokens }))
put-HasAccounts accounts E row = Keeps-writes _ (λ db h. h)

insert_row-HasAccounts :
    (accounts : List AccountRow) (host : Host) (row : TokenRow)
    → Keeps (HasAccounts accounts) (Tokens.insert_row host row)
unfolding Tokens.insert_row
insert_row-HasAccounts accounts host row = search (keeps_rules, put-HasAccounts) depth 20

module _ (host : Host) (m : TokenManager) where
  renew-HasAccounts :
      (accounts : List AccountRow) (id : String) (current : StoredToken)
      → Keeps (HasAccounts accounts) (renew host m id current)
  unfolding renew Tokens.upsert
  renew-HasAccounts accounts id current =
      search (keeps_rules, refresh-Keeps, to_stored-Keeps, encrypt-Keeps, insert_row-HasAccounts)
        depth 20

  -- A disconnect that returns while a refresh of the account waits for the token endpoint is undone
  -- by that refresh, if the endpoint grants it and the token is stored: a read of the account's token
  -- then gives one, made from the answer, while every row of that tenant and id says "disconnected".
  -- The cipher and the codecs behave as documented, the clock and the answer's expiry are in the years
  -- 0 to 9999, and at the read the lock is not poisoned and the SQL engine does not fail.
  pub disconnect_undone :
      (laws : HasCipher host m.key) (codecs : HasCodecs host) (a : Account) (current : StoredToken)
      (w w₁ w₂ : World) (clock : (n : ℕ) → IsFourDigit codecs (host.utc_now n))
      → ((set : TokenSet)
          → (refresh host m.oauth current.refresh_token w₁).0 ≡ ok set
          → IsReadable codecs set.expires_at)
      → disconnect host m a w ≡ (ok tt, w₁)
      → renew host m a.id current w₁ ≡ (ok tt, w₂)
      → w₂.poisoned ≡ false
      → host.sql_fault w₂.answers ≡ none
      → (set : TokenSet) × (token : StoredToken) × ((refresh host m.oauth current.refresh_token
            w₁).0
          ≡ ok set)
        × IsStoredFrom current set token
        × ((Tokens.get host m.key a.id w₂).0 ≡ ok (some token))
        × All (λ r. r.status ≡ as_str disconnected) (select (has_id a.tenant_id a.id) w₂.accounts)
  disconnect_undone laws codecs a current w w₁ w₂ clock readable gone done free healthy =
      let (removed, marked, size) = disconnect_lem host m a w (ap result gone) in
      let (set, token, answer, from, stored) =
        renew_stores host m a.id laws codecs current w₁ w₂ clock readable (ap result done) free
          healthy (ap (λ p. find (owned_by a.id) p.1.tokens) (sym done)) in
      let kept : w₂.accounts ≡ (disconnect host m a w).1.accounts =
        ap (λ p. p.1.accounts) (sym done)
        ∙ (renew-HasAccounts w₁.accounts a.id current).at w₁ refl
        ∙ ap (λ p. p.1.accounts) (sym gone) in
      (
        set,
        token,
        answer,
        from,
        ap (λ (p : Outcome AppError (Option StoredToken) × World). p.0) stored,
        rw kept marked,
      )

  -- The write of the last use, from a state with a healthy engine.
  stored_use :
      (laws : HasCipher host m.key) (codecs : HasCodecs host) (id : String) (stale : StoredToken)
      (v : World) (clock : (n : ℕ) → IsFourDigit codecs (host.utc_now n))
      → IsReadable codecs stale.expires_at
      → has_account id v.accounts ≡ true
      → v.poisoned ≡ false
      → ((n : ℕ) → host.sql_fault n ≡ none)
      → (Tokens.get host m.key id (write_last_used host m id stale v).1).0
        ≡ ok (
            some (record stale {
              last_used_at = some (host.utc_now v.answers);
              updated_at = host.utc_now (v.answers + 1);
            }))
  unfolding write_last_used
  stored_use laws codecs id stale v clock readable owner free healthy =
      let u : World = record v { answers = v.answers + 1 + 1 } in
      let used : StoredToken = record stale {
        last_used_at = some (host.utc_now v.answers);
        updated_at = host.utc_now (v.answers + 1);
      } in
      let (access, secret, a, r, wrote) =
        upsert_lem host m.key id laws used u free (healthy _) owner in
      rw wrote (
        ap (λ (p : Outcome AppError (Option StoredToken) × World). p.0)
          (get-upsert host m.key id laws codecs used u _
            (readable, clock v.answers, clock (v.answers + 1)) (ap result wrote) free (healthy _)
            (ap (λ p. find (owned_by id) p.1.tokens) (sym wrote))))

  -- The write of the last use puts back what was read before a refresh that has returned since: a
  -- read after the refresh gives the token made from the answer that the endpoint gave it for the
  -- refresh token then stored, and a read after the write gives the access and refresh tokens from
  -- before the refresh. The first read, the refresh and the write are for the same account, which is
  -- in the table, and the write is due; the cipher and the codecs behave as documented, the clock, the
  -- answer's expiry and the expiry that was read first are in the years 0 to 9999, the lock is not
  -- poisoned and the SQL engine does not fail.
  pub last_use_undoes_refresh :
      (laws : HasCipher host m.key) (codecs : HasCodecs host) (id : String) (stale : StoredToken)
      (w w₁ w₂ v : World) (clock : (n : ℕ) → IsFourDigit codecs (host.utc_now n))
      → ((current : StoredToken) (set : TokenSet)
          → IsAnswer host m id w₁ current set
          → IsReadable codecs set.expires_at)
      → IsReadable codecs stale.expires_at
      → Tokens.get host m.key id w ≡ (ok (some stale), w₁)
      → refresh_account host m id w₁ ≡ (ok tt, w₂)
      → should_write host m stale.last_used_at w₂ ≡ (ok true, v)
      → has_account id w₂.accounts ≡ true
      → w₂.poisoned ≡ false
      → ((n : ℕ) → host.sql_fault n ≡ none)
      → (current : StoredToken) × (set : TokenSet) × (fresh : StoredToken) × (old : StoredToken)
        × IsAnswer host m id w₁ current set
        × IsStoredFrom current set fresh
        × ((Tokens.get host m.key id w₂).0 ≡ ok (some fresh))
        × ((Tokens.get host m.key id (bump_last_used host m id stale w₂).1).0 ≡ ok (some old))
        × (old.access_token ≡ stale.access_token)
        × (old.refresh_token ≡ stale.refresh_token)
  unfolding bump_last_used
  last_use_undoes_refresh laws codecs id stale w w₁ w₂ v clock readable readable' read done due
        owner free healthy =
      let (current, found, run, renewed) = refresh_account_runs host m id w₁ (ap result done) in
      let (set, fresh, answer, from, stored) =
        renew_stores host m id laws codecs current _ w₂ clock
          (λ set answer. readable current set (found, answer)) renewed free (healthy w₂.answers)
          (ap (λ p. find (owned_by id) p.1.tokens) (sym done ∙ run)) in
      let same : v.db ≡ w₂.db =
        ap (λ (p : Outcome AppError Bool × World). p.1.db) (sym due)
        ∙ (should_write-Keeps {P = λ db. db ≡ w₂.db} host m stale.last_used_at).at w₂ refl in
      let kept =
        stored_use laws codecs id stale v clock readable' (rw same owner) (rw same free) healthy in
      (
        current,
        set,
        fresh,
        record stale {
          last_used_at = some (host.utc_now v.answers);
          updated_at = host.utc_now (v.answers + 1);
        },
        (found, answer),
        from,
        ap (λ (p : Outcome AppError (Option StoredToken) × World). p.0) stored,
        rw due kept,
        refl,
        refl,
      )
