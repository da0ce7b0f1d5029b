-- ===== src/Storage/Tokens/Laws.antt =====
-- The token store (src/storage/tokens.rs): what reads give after writes and deletes.
use mathlib.Core.Option
use uni_mail.Common.{
  ℕ, ◌+◌, ◌≤◌, ◌≡◌, ◌≢◌, refl, String, true, false, List, [], ◌∷◌, Option, none, some, arith, ◌==◌,
  eq_iff, eq_refl, find, not, if◌then◌else◌, find-select-none, find-select-keep,
}
use uni_mail.Error.{ok}
use uni_mail.Exec.{World, lock}
use uni_mail.Host.{Host}
use uni_mail.Storage.Models.{TokenRow}
use uni_mail.Storage.Crypto.{encrypt, decrypt}
use uni_mail.Storage.Crypto.Laws.{HasCipher, encrypt_lem}
use uni_mail.Storage.Tokens.{
  StoredToken, owned_by, parse_time, time_or_now, decode_row, decode_found, get, put_row,
  has_account, insert_row, upsert, delete,
}

-- The table after an insert or update, account by account.
pub find-put_row :
    (row : TokenRow) (j : String) (rows : List TokenRow)
    → find (owned_by j) (put_row row rows)
      ≡ (if row.account_id == j then some row else find (owned_by j) rows)
unfolding put_row find
find-put_row row j [] = refl
find-put_row row j (r ∷ rs) = ground (
  arith,
  find-put_row row j rs,
  eq_iff r.account_id row.account_id,
  eq_iff r.account_id j,
  eq_iff row.account_id j,
)

-- Documented behaviour of the codecs: UTF-8 is read back, and so are the RFC 3339 texts of the times
-- between two instants, the first and the last of the years 0 to 9999.
pub record HasCodecs (host : Host) : Type 0 where
  pub utf8 : (s : String) → host.from_utf8 (host.as_bytes s) ≡ ok s
  pub first : ℕ
  pub last : ℕ
  pub rfc3339 :
      (t : ℕ) → first ≤ t → t ≤ last → host.parse_from_rfc3339 (host.to_rfc3339 t) ≡ some t

-- A time in the years 0 to 9999.
abbrev pub IsFourDigit : {host : Host} → HasCodecs host → ℕ → Type 0
IsFourDigit codecs t = (codecs.first ≤ t) × (t ≤ codecs.last)

-- Such a time, if there is one.
abbrev pub IsReadable : {host : Host} → HasCodecs host → Option ℕ → Type 0
IsReadable codecs none = Unit
IsReadable codecs (some t) = IsFourDigit codecs t

-- The times of a token are in the years 0 to 9999.
abbrev pub HasReadableTimes : {host : Host} → HasCodecs host → StoredToken → Type 0
HasReadableTimes codecs token =
    IsReadable codecs token.expires_at
    × IsReadable codecs token.last_used_at
    × IsFourDigit codecs token.updated_at

parse_time-map :
    {host : Host} (codecs : HasCodecs host) (o : Option ℕ)
    → IsReadable codecs o
    → parse_time host (Option.map host.to_rfc3339 o) ≡ o
unfolding parse_time
parse_time-map codecs none h = refl
parse_time-map codecs (some t) (late, early) = codecs.rfc3339 t late early

module _ (host : Host) (key : List ℕ) (account_id : String) where
  -- The row that `upsert` writes for a token, given its two blobs.
  abbrev pub row_of : StoredToken → List ℕ → List ℕ → TokenRow
  row_of token access refresh = record {
    account_id = account_id;
    access_token_encrypted = access;
    refresh_token_encrypted = refresh;
    scope = token.scope;
    expires_at = Option.map host.to_rfc3339 token.expires_at;
    last_used_at = Option.map host.to_rfc3339 token.last_used_at;
    updated_at = host.to_rfc3339 token.updated_at;
  }

  pub decode-row_of :
      (codecs : HasCodecs host) (token : StoredToken) (access refresh : List ℕ) (w : World)
      → HasReadableTimes codecs token
      → decrypt host key access ≡ ok (host.as_bytes token.access_token)
      → decrypt host key refresh ≡ ok (host.as_bytes token.refresh_token)
      → decode_row host key (row_of token access refresh) w ≡ (ok token, w)
  unfolding decode_row parse_time time_or_now
  decode-row_of codecs token access refresh w (expires, used, (late, early)) a r = ground (
    arith,
    a,
    r,
    codecs.utf8 token.access_token,
    codecs.utf8 token.refresh_token,
    codecs.rfc3339 token.updated_at late early,
    parse_time-map codecs token.expires_at expires,
    parse_time-map codecs token.last_used_at used,
  )

  -- A read by an account id finds what the table holds for it.
  pub get_found :
      (w : World) (row : TokenRow) (token : StoredToken)
      → w.poisoned ≡ false
      → host.sql_fault w.answers ≡ none
      → find (owned_by account_id) w.tokens ≡ some row
      → decode_row host key row (record w { answers = w.answers + 1 })
        ≡ (ok token, record w { answers = w.answers + 1 })
      → get host key account_id w ≡ (ok (some token), record w { answers = w.answers + 1 })
  unfolding get lock decode_found
  get_found w row token free healthy there decoded = ground arith

  pub get_missing :
      (w : World)
      → w.poisoned ≡ false
      → host.sql_fault w.answers ≡ none
      → find (owned_by account_id) w.tokens ≡ none
      → get host key account_id w ≡ (ok none, record w { answers = w.answers + 1 })
  unfolding get lock decode_found
  get_missing w free healthy gone = ground arith

  -- A successful upsert: the two nonces and the statement take three answers.
  pub upsert_lem :
      (laws : HasCipher host key) (token : StoredToken) (w : World)
      → w.poisoned ≡ false
      → host.sql_fault (w.answers + 1 + 1) ≡ none
      → has_account account_id w.accounts ≡ true
      → (access refresh : List ℕ) × (decrypt host key access
          ≡ ok (host.as_bytes token.access_token))
        × (decrypt host key refresh ≡ ok (host.as_bytes token.refresh_token))
        × (upsert host key account_id token w ≡ (
          ok tt,
          record w {
            answers = w.answers + 1 + 1 + 1;
            db = record w.db { tokens = put_row (row_of token access refresh) w.tokens };
          },
        ))
  unfolding upsert insert_row lock
  upsert_lem laws token w free healthy parent =
      let (access, e, a) = encrypt_lem laws (host.as_bytes token.access_token) w in
      let (refresh, f, r) =
        encrypt_lem laws (host.as_bytes token.refresh_token)
          (record w { answers = w.answers + 1 }) in
      (access, refresh, a, r, ground arith)

  -- An upsert that returned has met its guards.
  pub upsert_guards :
      (laws : HasCipher host key) (token : StoredToken) (w : World)
      → (upsert host key account_id token w).0 ≡ ok tt
      → (w.poisoned ≡ false)
        × (host.sql_fault (w.answers + 1 + 1) ≡ none)
        × (has_account account_id w.accounts ≡ true)
  unfolding upsert insert_row lock
  upsert_guards laws token w done =
      let (access, e, a) = encrypt_lem laws (host.as_bytes token.access_token) w in
      let (refresh, f, r) =
        encrypt_lem laws (host.as_bytes token.refresh_token)
          (record w { answers = w.answers + 1 }) in
      ground arith

  -- Round trip: after an upsert that returned, reading that account's token gives back every field
  -- of what was stored, if its times are in the years 0 to 9999. Between the calls the program may
  -- do anything that leaves the account's row alone; the cipher and the codecs behave as documented,
  -- and at the read the lock is not poisoned and the SQL engine does not fail.
  pub get-upsert :
      (laws : HasCipher host key) (codecs : HasCodecs host) (token : StoredToken) (w w' : World)
      → HasReadableTimes codecs token
      → (upsert host key account_id token w).0 ≡ ok tt
      → w'.poisoned ≡ false
      → host.sql_fault w'.answers ≡ none
      → find (owned_by account_id) w'.tokens
        ≡ find (owned_by account_id) (upsert host key account_id token w).1.tokens
      → get host key account_id w' ≡ (ok (some token), record w' { answers = w'.answers + 1 })
  get-upsert laws codecs token w w' times done free' healthy' same =
      let (free, healthy, parent) = upsert_guards laws token w done in
      let (access, refresh, a, r, stored) = upsert_lem laws token w free healthy parent in
      let row = row_of token access refresh in
      let there : find (owned_by account_id) w'.tokens ≡ some row =
        rw (same, stored, find-put_row row account_id w.tokens, eq_refl account_id) refl in
      get_found w' row token free' healthy' there
        (decode-row_of codecs token access refresh _ times a r)

  -- Whatever happens to an upsert, a failure included, no other account's token changes.
  pub upsert_frame :
      (j : String) (token : StoredToken) (w : World)
      → account_id ≢ j
      → find (owned_by j) (upsert host key account_id token w).1.tokens ≡ find (owned_by j) w.tokens
  unfolding upsert insert_row lock encrypt
  upsert_frame j token w other = grind (arith, find-put_row, eq_iff account_id j)

  -- After a delete that returned, the table holds no token of the account.
  pub delete_removes :
      (w : World)
      → (delete host account_id w).0 ≡ ok tt
      → find (owned_by account_id) (delete host account_id w).1.tokens ≡ none
  unfolding delete lock
  delete_removes w done = ground (
    arith,
    find-select-none (owned_by account_id) (λ r. not (owned_by account_id r)) w.tokens
        (λ x h. rw h),
  )

  -- A delete, also one that fails, changes no other account's token and no account.
  pub delete_frame :
      (j : String) (w : World)
      → account_id ≢ j
      → (find (owned_by j) (delete host account_id w).1.tokens ≡ find (owned_by j) w.tokens)
        × ((delete host account_id w).1.accounts ≡ w.accounts)
  unfolding delete lock
  delete_frame j w other = (
    ground (
      arith,
      find-select-keep (owned_by j) (λ r. not (owned_by account_id r)) w.tokens
          (λ x h. ground (arith, eq_iff x.account_id j, eq_iff x.account_id account_id)),
    ),
    ground arith,
  )

  pub delete-accounts : (w : World) → (delete host account_id w).1.accounts ≡ w.accounts
  unfolding delete lock
  delete-accounts w = ground arith
