-- ===== src/Storage/Crypto/Laws.antt =====
-- Encrypting and decrypting (src/storage/crypto.rs), under the documented behaviour of AES-GCM.
use uni_mail.Common.{
  ℕ, ◌+◌, ◌<◌, ◌≤◌, ◌≡◌, refl, ap, List, [], ◌∷◌, ◌++◌, none, arith, length, take, drop,
  length-append,
}
use uni_mail.Error.{ok, err}
use uni_mail.Exec.{World}
use uni_mail.Host.{Host}
use uni_mail.Storage.Crypto.{nonce_len, encrypt, decrypt}

-- The key is of the cipher's length, a nonce has the length asked for, and what is sealed under a
-- nonce is opened under it. A sealed text carries a tag, so it is not empty.
pub record HasCipher (host : Host) (key : List ℕ) : Type 0 where
  pub accepts : host.cipher_error key ≡ none
  pub nonce_size : (n : ℕ) → length (host.random_nonce n) ≡ nonce_len
  pub seals :
      (nonce plaintext : List ℕ)
      → (c : List ℕ) × (host.gcm_encrypt key nonce plaintext ≡ ok c)
        × (0 < length c)
        × (host.gcm_decrypt key nonce c ≡ ok plaintext)

take-append {ℓ} : {A : Type ℓ} (xs ys : List A) → take (length xs) (xs ++ ys) ≡ xs
take-append [] ys = refl
take-append (x ∷ xs) ys = ap (◌∷◌ x) (take-append xs ys)

drop-append {ℓ} : {A : Type ℓ} (xs ys : List A) → drop (length xs) (xs ++ ys) ≡ ys
drop-append [] ys = refl
drop-append (x ∷ xs) ys = drop-append xs ys

module _ {host : Host} {key : List ℕ} (laws : HasCipher host key) where
  decrypt-append :
      (nonce c plaintext : List ℕ)
      → length nonce ≡ nonce_len
      → 0 < length c
      → host.gcm_decrypt key nonce c ≡ ok plaintext
      → decrypt host key (nonce ++ c) ≡ ok plaintext
  unfolding decrypt
  decrypt-append nonce c plaintext size full opens =
      let head : take nonce_len (nonce ++ c) ≡ nonce = rw (← size) (take-append nonce c) in
      let rest : drop nonce_len (nonce ++ c) ≡ c = rw (← size) (drop-append nonce c) in
      rw (head, rest, laws.accepts) (ground (arith, length-append nonce c))

  -- Where the cipher behaves as documented, encrypting returns, takes one answer of the host, and
  -- what it returns decrypts to the plaintext.
  pub encrypt_lem :
      (plaintext : List ℕ) (w : World)
      → (blob : List ℕ) × (encrypt host key plaintext w
          ≡ (ok blob, record w { answers = w.answers + 1 }))
        × (decrypt host key blob ≡ ok plaintext)
  unfolding encrypt
  encrypt_lem plaintext w =
      let nonce = host.random_nonce w.answers in
      let (c, sealed, full, opens) = laws.seals nonce plaintext in
      (
        nonce ++ c,
        rw (laws.accepts, sealed) refl,
        decrypt-append nonce c plaintext (laws.nonce_size w.answers) full opens,
      )

-- Whatever the host: a blob no longer than a nonce is refused before the cipher is asked.
pub decrypt_short :
    (host : Host) (key blob : List ℕ)
    → length blob ≤ nonce_len
    → decrypt host key blob ≡ err "ciphertext is too short to contain a nonce"
unfolding decrypt
decrypt_short host key blob h = ground arith
