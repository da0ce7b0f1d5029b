-- ===== src/Storage/Tokens/Found.antt =====
-- The row behind a token that is read (src/storage/tokens.rs).
use uni_mail.Common.{ℕ, ◌≡◌, refl, sym, ap, ◌∙◌, String, List, Option, none, some, find, arith}
use uni_mail.Error.{ok, map_err, storage}
use uni_mail.Exec.{World, Database, reads, on_error, statement, sql_storage, lock, lift}
use uni_mail.Exec.Inversion.{map_err-eq-ok, >>=-eq-ok}
use uni_mail.Host.{Host}
use uni_mail.Storage.Models.{TokenRow}
use uni_mail.Storage.Crypto.{decrypt}
use uni_mail.Storage.Tokens
use uni_mail.Storage.Tokens.{
  StoredToken, owned_by, not_utf8, time_or_now, decode_row, decode_found, put_row,
}

-- The table holds, for the account, a row with the refresh token of this token set.
abbrev pub IsInTable : Host → List ℕ → String → StoredToken → List TokenRow → Type 0
IsInTable host key id current tokens =
    (row : TokenRow) × (bytes : List ℕ) × (find (owned_by id) tokens ≡ some row)
    × (decrypt host key row.refresh_token_encrypted ≡ ok bytes)
    × (host.from_utf8 bytes ≡ ok current.refresh_token)

module _ (host : Host) (key : List ℕ) where
  -- A row that is decoded.
  decode_row-eq-ok :
      (row : TokenRow) (token : StoredToken) (w : World)
      → (decode_row host key row w).0 ≡ ok token
      → (bytes : List ℕ) × (decrypt host key row.refresh_token_encrypted ≡ ok bytes)
        × (host.from_utf8 bytes ≡ ok token.refresh_token)
  unfolding decode_row
  decode_row-eq-ok row token w h =
      let (access, a, h₁) =
        >>=-eq-ok (lift (map_err storage (decrypt host key row.access_token_encrypted))) _ w h in
      let (bytes, r, h₂) =
        >>=-eq-ok (lift (map_err storage (decrypt host key row.refresh_token_encrypted))) _ w h₁ in
      let (text, t, h₃) =
        >>=-eq-ok (lift (map_err (not_utf8 "access") (host.from_utf8 access))) _ w h₂ in
      let (secret, s, h₄) =
        >>=-eq-ok (lift (map_err (not_utf8 "refresh") (host.from_utf8 bytes))) _ w h₃ in
      let (time, u, h₅) =
        >>=-eq-ok (time_or_now host (host.parse_from_rfc3339 row.updated_at)) _ w h₄ in
      let same : secret ≡ token.refresh_token = cc in
      (bytes, map_err-eq-ok storage _ r, map_err-eq-ok (not_utf8 "refresh") _ s ∙ ap ok same)

  decode_found-eq-ok :
      (found : Option TokenRow) (token : StoredToken) (w : World)
      → (decode_found host key found w).0 ≡ ok (some token)
      → (row : TokenRow) × (found ≡ some row) × ((decode_row host key row w).0 ≡ ok token)
  unfolding decode_found
  decode_found-eq-ok none token w h = cc
  decode_found-eq-ok (some row) token w h =
      let (t, decoded, e) = >>=-eq-ok (decode_row host key row) _ w h in
      let same : t ≡ token = cc in (row, refl, decoded ∙ ap ok same)

  query-eq-ok :
      (f : Database → Option TokenRow) (w : World) {found : Option TokenRow}
      → (on_error sql_storage (statement host (reads f)) w).0 ≡ ok found
      → found ≡ f w.db
  query-eq-ok f w h = ground arith

  -- A read that found a token.
  pub get-IsInTable :
      (id : String) (token : StoredToken) (w : World)
      → (Tokens.get host key id w).0 ≡ ok (some token)
      → IsInTable host key id token w.tokens
  unfolding Tokens.get lock
  get-IsInTable id token w h =
      let (_, free, h₁) = >>=-eq-ok lock _ w h in
      let (found, q, h₂) =
        >>=-eq-ok
          (on_error sql_storage (statement host (reads (λ db. find (owned_by id) db.tokens)))) _
          (lock w).1 h₁ in
      let (row, e, decoded) = decode_found-eq-ok found token _ h₂ in
      let (bytes, r, s) = decode_row-eq-ok row token _ decoded in
      (row, bytes, sym (query-eq-ok _ (lock w).1 q) ∙ e, r, s)
