-- ===== src/Tests/Source/Crypto.antt =====
-- The unit tests of src/storage/crypto.rs.
use Prim.Native.Nat.{ℕ, bit_xor}
use uni_mail.Common.{refl, Bool, true, false, not, List, [], ◌∷◌, take, length, String}
use uni_mail.Error.{AppError}
use uni_mail.Exec.{Exec, ◌>>=◌, ◌>>◌, lift}
use uni_mail.Error.{Outcome, ok, err, panic}
use uni_mail.Host.{Host}
use uni_mail.Storage.Crypto.{encrypt, decrypt}
use uni_mail.Tests.Source.{assert, unwrap, Passes, replicate, same_bytes, lab}

abbrev is_err : Outcome String (List ℕ) → Bool
is_err (ok a) = false
is_err (err e) = true
is_err (panic m) = false

abbrev round_trip : Host → Exec AppError (Unit {0})
round_trip host = do
  let key = replicate 32 7
  let plaintext = host.as_bytes "refresh-token-secret"
  ct ← unwrap (encrypt host key plaintext)
  assert (not (same_bytes (take (length plaintext) ct) plaintext))
  opened ← unwrap (lift (decrypt host key ct))
  assert (same_bytes opened plaintext)

abbrev nonces_are_unique : Host → Exec AppError (Unit {0})
nonces_are_unique host = do
  let key = replicate 32 9
  a ← unwrap (encrypt host key (host.as_bytes "same"))
  b ← unwrap (encrypt host key (host.as_bytes "same"))
  assert (not (same_bytes a b))

abbrev wrong_key_fails : Host → Exec AppError (Unit {0})
wrong_key_fails host = do
  ct ← unwrap (encrypt host (replicate 32 1) (host.as_bytes "secret"))
  assert (is_err (decrypt host (replicate 32 2) ct))

-- `ct[last] ^= 0xff`
abbrev flip_last : List ℕ → List ℕ
flip_last [] = []
flip_last (b ∷ []) = bit_xor b 0xff ∷ []
flip_last (b ∷ bs) = b ∷ flip_last bs

abbrev tampered_ciphertext_fails : Host → Exec AppError (Unit {0})
tampered_ciphertext_fails host = do
  let key = replicate 32 3
  ct ← unwrap (encrypt host key (host.as_bytes "secret"))
  assert (is_err (decrypt host key (flip_last ct)))

round_trip-Passes : Passes (round_trip lab)
unfolding encrypt decrypt
round_trip-Passes = refl

nonces_are_unique-Passes : Passes (nonces_are_unique lab)
unfolding encrypt
nonces_are_unique-Passes = refl

wrong_key_fails-Passes : Passes (wrong_key_fails lab)
unfolding encrypt decrypt
wrong_key_fails-Passes = refl

tampered_ciphertext_fails-Passes : Passes (tampered_ciphertext_fails lab)
unfolding encrypt decrypt
tampered_ciphertext_fails-Passes = refl
