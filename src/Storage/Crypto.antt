-- ===== src/Storage/Crypto.antt =====
-- src/storage/crypto.rs: nonce and ciphertext in one blob. The cipher is the host's.
pub mod Laws
use uni_mail.Common.{
  ℕ, ◌+◌, ◌≤◌, ◌≡◌, List, ◌++◌, Option, none, some, String, arith, length, take, drop, leb,
  if◌then◌else◌,
}
use uni_mail.Error.{Outcome, ok, err}
use uni_mail.Exec.{Exec, ◌>>=◌, pure, lift, ask}
use uni_mail.Host.{Host}

abbrev pub nonce_len : ℕ
nonce_len = 12

-- `Aes256Gcm::new_from_slice(key).map_err(|e| e.to_string())`; the cipher is its key.
abbrev pub accepted : Option String → List ℕ → Outcome String (List ℕ)
accepted none key = ok key
accepted (some e) key = err e

unfoldable pub encrypt : Host → List ℕ → List ℕ → Exec String (List ℕ)
encrypt host key plaintext = do
  cipher ← lift (accepted (host.cipher_error key) key)
  nonce ← ask host.random_nonce
  ciphertext ← lift (host.gcm_encrypt cipher nonce plaintext)
  pure (nonce ++ ciphertext)

-- The cipher at work on the two parts of a blob.
abbrev pub opened : Host → Outcome String (List ℕ) → List ℕ → List ℕ → Outcome String (List ℕ)
opened host (ok cipher) nonce ciphertext = host.gcm_decrypt cipher nonce ciphertext
opened host e nonce ciphertext = e

unfoldable pub decrypt : Host → List ℕ → List ℕ → Outcome String (List ℕ)
decrypt host key blob =
    if leb (length blob) nonce_len
    then err "ciphertext is too short to contain a nonce"
    else opened host (accepted (host.cipher_error key) key) (take nonce_len blob)
        (drop nonce_len blob)
