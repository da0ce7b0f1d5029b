-- ===== src/Auth/Token/Calm.antt =====
-- Panics of `refresh_account` (src/auth/token.rs) and of what it calls.
use uni_mail.Common.{
  ℕ, ◌+◌, ◌≤◌, ◌≡◌, refl, String, List, Bool, true, false, Option, none, some, leb, le→leb,
  if◌then◌else◌, ◌++◌, length,
}
use mathlib.Core.Option
use uni_mail.Error.{Outcome, ok, err, panic, AppError, map_err}
use uni_mail.Exec.{World, writes, fail, constraint, ◌>>=◌, lift}
use uni_mail.Exec.Calm.{
  NoPanic, NoPanic-if, IsCalm, >>=-IsCalm, lift-IsCalm, on_error-IsCalm, or_error-IsCalm,
  statement-IsCalm, run_calm, step-IsCalm, pure-IsCalm, ask-IsCalm, result-IsCalm, lock-IsCalm,
}
use uni_mail.Host.{Host, OAuthClient, Request, TokenResponse}
use uni_mail.Storage.Models.{TokenRow}
use uni_mail.Storage.Crypto.{encrypt, decrypt, accepted, opened, nonce_len}
use uni_mail.Storage.Tokens
use uni_mail.Storage.Tokens.{
  StoredToken, put_row, has_account, time_or_now, decode_row, decode_found,
}
use uni_mail.Auth.Oauth.{
  TokenSet, lifetime, add_time, expiry, client, token_set_from, token_request, refresh,
}
use uni_mail.Auth.Token.{
  TokenManager, account_lock, entry, entry_or_new, to_stored, not_connected, refresh_account,
}

-- The crates return where they may fail, and no answered lifetime leads past chrono's latest time.
pub record HasCalmCrates (host : Host) : Type 0 where
  pub encrypts : (key nonce plaintext : List ℕ) → NoPanic (host.gcm_encrypt key nonce plaintext)
  pub decrypts : (key nonce ciphertext : List ℕ) → NoPanic (host.gcm_decrypt key nonce ciphertext)
  pub decodes : (bytes : List ℕ) → NoPanic (host.from_utf8 bytes)
  pub parses : (url : String) → NoPanic (host.parse_url url)
  pub answers : (n : ℕ) (c : OAuthClient) (r : Request) → NoPanic (host.token_endpoint n c r)
  pub on_time :
      (n k d : ℕ) (c : OAuthClient) (r : Request) (response : TokenResponse)
      → host.token_endpoint n c r ≡ ok response
      → response.expires_in ≡ some d
      → host.utc_now k + lifetime d ≤ host.max_time

accepted_calm : (e : Option String) (key : List ℕ) → NoPanic (accepted e key)
accepted_calm none key = tt
accepted_calm (some text) key = tt

-- Both ways of the statement of `upsert`.
NoPanic-insert :
    (parent : Bool) (host : Host) (row : TokenRow) (w : World)
    → NoPanic
        ((if parent
            then writes (λ db. record db { tokens = put_row row db.tokens })
            else fail (constraint host.foreign_key_error))
          w).0
NoPanic-insert true host row w = tt
NoPanic-insert false host row w = tt

module _ {host : Host} (laws : HasCalmCrates host) where
  encrypt-IsCalm : (key plaintext : List ℕ) → IsCalm (encrypt host key plaintext)
  unfolding encrypt
  encrypt-IsCalm key plaintext =
      >>=-IsCalm _ _ (result-IsCalm _ (accepted_calm (host.cipher_error key) key)) (λ cipher.
        >>=-IsCalm _ _ (ask-IsCalm String host.random_nonce) (λ nonce.
          >>=-IsCalm _ _ (result-IsCalm _ (laws.encrypts cipher nonce plaintext))
            (λ c. pure-IsCalm String (nonce ++ c))))

  opened_calm :
      (e : Option String) (key nonce ciphertext : List ℕ)
      → NoPanic (opened host (accepted e key) nonce ciphertext)
  opened_calm none key nonce ciphertext = laws.decrypts key nonce ciphertext
  opened_calm (some text) key nonce ciphertext = tt

  pub decrypt_calm : (key blob : List ℕ) → NoPanic (decrypt host key blob)
  unfolding decrypt
  decrypt_calm key blob =
      NoPanic-if (leb (length blob) nonce_len) _ _ tt (opened_calm (host.cipher_error key) key _ _)

  time_or_now-IsCalm : (o : Option ℕ) → IsCalm (time_or_now host o)
  unfolding time_or_now
  time_or_now-IsCalm none = step-IsCalm _ (λ w. tt)
  time_or_now-IsCalm (some t) = step-IsCalm _ (λ w. tt)

  decode_row-IsCalm : (key : List ℕ) (row : TokenRow) → IsCalm (decode_row host key row)
  unfolding decode_row
  decode_row-IsCalm key row =
      >>=-IsCalm _ _ (lift-IsCalm _ _ (decrypt_calm key row.access_token_encrypted))
        (λ access_bytes.
          >>=-IsCalm _ _ (lift-IsCalm _ _ (decrypt_calm key row.refresh_token_encrypted)) (λ bytes.
            >>=-IsCalm _ _ (lift-IsCalm _ _ (laws.decodes access_bytes)) (λ access.
              >>=-IsCalm _ _ (lift-IsCalm _ _ (laws.decodes bytes)) (λ refresh.
                >>=-IsCalm _ _ (time_or_now-IsCalm _) (λ updated. step-IsCalm _ (λ w. tt))))))

  decode_found-IsCalm :
      (key : List ℕ) (found : Option TokenRow) → IsCalm (decode_found host key found)
  unfolding decode_found
  decode_found-IsCalm key none = step-IsCalm _ (λ w. tt)
  decode_found-IsCalm key (some row) =
      >>=-IsCalm _ _ (decode_row-IsCalm key row) (λ token. step-IsCalm _ (λ w. tt))

  pub get-IsCalm : (key : List ℕ) (id : String) → IsCalm (Tokens.get host key id)
  unfolding Tokens.get
  get-IsCalm key id = >>=-IsCalm _ _ lock-IsCalm (λ _.
      >>=-IsCalm _ _ (on_error-IsCalm _ _ (statement-IsCalm host _ (step-IsCalm _ (λ w. tt))))
        (decode_found-IsCalm key))

  insert_row-IsCalm : (row : TokenRow) → IsCalm (Tokens.insert_row host row)
  unfolding Tokens.insert_row
  insert_row-IsCalm row =
      step-IsCalm _ (λ w. NoPanic-insert (has_account row.account_id w.accounts) host row w)

  pub upsert-IsCalm :
      (key : List ℕ) (id : String) (token : StoredToken) → IsCalm (Tokens.upsert host key id token)
  unfolding Tokens.upsert
  upsert-IsCalm key id token =
      >>=-IsCalm _ _ (on_error-IsCalm _ _ (encrypt-IsCalm key _)) (λ access.
        >>=-IsCalm _ _ (on_error-IsCalm _ _ (encrypt-IsCalm key _)) (λ refresh.
          >>=-IsCalm _ _ lock-IsCalm
            (λ _. on_error-IsCalm _ _ (statement-IsCalm host _ (insert_row-IsCalm _)))))

  client-IsCalm : (c : OAuthClient) → IsCalm (client host c)
  unfolding client
  client-IsCalm c = >>=-IsCalm _ _ (lift-IsCalm _ _ (laws.parses c.auth_url)) (λ _.
      >>=-IsCalm _ _ (lift-IsCalm _ _ (laws.parses c.token_url)) (λ _.
        >>=-IsCalm _ _ (lift-IsCalm _ _ (laws.parses c.redirect_uri))
          (λ _. step-IsCalm _ (λ w. tt))))

  expiry-IsCalm :
      (o : Option ℕ)
      → ((k d : ℕ) → o ≡ some d → host.utc_now k + lifetime d ≤ host.max_time)
      → IsCalm (expiry host o)
  unfolding expiry add_time
  expiry-IsCalm none h = step-IsCalm _ (λ w. tt)
  expiry-IsCalm (some d) h =
      step-IsCalm _ (λ w.
        rw (le→leb (host.utc_now w.answers + lifetime d) host.max_time (h w.answers d refl)) tt)

  answer-IsCalm :
      (e : String → AppError) (answer : Outcome String TokenResponse)
      → NoPanic answer
      → ((k d : ℕ) (response : TokenResponse)
          → answer ≡ ok response
          → response.expires_in ≡ some d
          → host.utc_now k + lifetime d ≤ host.max_time)
      → IsCalm (lift (map_err e answer) >>= token_set_from host)
  unfolding token_set_from
  answer-IsCalm e (ok response) h on_time = step-IsCalm _ (λ w.
      run_calm (token_set_from host response)
        (>>=-IsCalm _ _
          (expiry-IsCalm response.expires_in (λ k d same. on_time k d response refl same))
          (λ expires_at. pure-IsCalm AppError _))
        w)
  answer-IsCalm e (err text) h on_time = step-IsCalm _ (λ w. tt)
  answer-IsCalm e (panic text) h on_time = absurd h

  pub token_request-IsCalm :
      (c : OAuthClient) (r : Request) (e : String → AppError) → IsCalm (token_request host c r e)
  unfolding token_request
  token_request-IsCalm c r e = >>=-IsCalm _ _ (client-IsCalm c) (λ _. step-IsCalm _ (λ w.
      run_calm _
        (answer-IsCalm e (host.token_endpoint w.answers c r) (laws.answers w.answers c r)
          (λ k d response. laws.on_time w.answers k d c r response))
        _))

  refresh-IsCalm : (c : OAuthClient) (token : String) → IsCalm (refresh host c token)
  unfolding refresh
  refresh-IsCalm c token = token_request-IsCalm c _ _

  account_lock-IsCalm : (m : TokenManager) (id : String) → IsCalm (account_lock host m id)
  unfolding account_lock
  account_lock-IsCalm m id = step-IsCalm _ (λ w. entry_calm w (entry id w.refresh_locks))
    where
      entry_calm : (w : World) (o : Option ℕ) → NoPanic (entry_or_new host m id o w).0
      entry_calm w none = tt
      entry_calm w (some l) = tt

  pub to_stored-IsCalm :
      (m : TokenManager) (set : TokenSet) (refresh_token : String)
      → IsCalm (to_stored host m set refresh_token)
  unfolding to_stored
  to_stored-IsCalm m set refresh_token = step-IsCalm _ (λ w. tt)

  -- A refresh of an account returns, with success or an error, from whatever state it starts.
  pub refresh_account-IsCalm : (m : TokenManager) (id : String) → IsCalm (refresh_account host m id)
  unfolding refresh_account
  refresh_account-IsCalm m id = >>=-IsCalm _ _ (account_lock-IsCalm m id) (λ _.
      >>=-IsCalm _ _ (get-IsCalm m.key id) (λ found.
        >>=-IsCalm _ _ (or_error-IsCalm found not_connected) (λ current.
          >>=-IsCalm _ _ (refresh-IsCalm m.oauth current.refresh_token) (λ set.
            >>=-IsCalm _ _
              (to_stored-IsCalm m set (Option.get_or set.refresh_token current.refresh_token))
              (λ stored. upsert-IsCalm m.key id stored)))))
