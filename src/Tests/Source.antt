-- ===== src/Tests/Source.antt =====
-- The unit tests that stand in the source (`mod tests` of each file under src/), as computations that
-- panic where the test would, and what they share. Each of them passes on the model.
mod Crypto
mod Tokens
mod Flows
mod Inbox
mod Config
mod Keys
use Prim.Native.Nat.{ℕ, zero, suc, ◌+◌, ◌*◌, ◌/◌, ◌%◌, ◌-◌}
use Prim.Native.String.{String}
use uni_mail.Common.{
  ◌≡◌, Bool, true, false, ◌&&◌, List, [], ◌∷◌, ◌++◌, map, Option, none, some, eqb, if◌then◌else◌,
}
use uni_mail.Error.{Outcome, ok, err, AppError}
use uni_mail.Exec.{World, Exec, Database, ◌>>=◌, pure, crash, lift, expect, writes}
use uni_mail.Host.{Host}
use uni_mail.Storage.Open.{Engine, open_in_memory}
use uni_mail.System.{empty, first_world}
use uni_mail.Tests.Machine.{machine, codes, text_of}

-- `assert!`
abbrev pub assert : Bool → Exec AppError (Unit {0})
assert true = pure tt
assert false = crash "assertion failed"

-- `.unwrap()` of a result and of an option
abbrev pub unwrap : {E A : Type 0} → Exec E A → Exec AppError A
unwrap m = expect "called `Result::unwrap()` on an `Err` value" m

abbrev pub unwrap_some : {A : Type 0} → Option A → Exec AppError A
unwrap_some none = crash "called `Option::unwrap()` on a `None` value"
unwrap_some (some a) = pure a

-- The test ends without a panic.
abbrev pub Passes : Exec AppError (Unit {0}) → Type 0
Passes test = (test first_world).0 ≡ ok tt

abbrev pub replicate : ℕ → ℕ → List ℕ
replicate zero b = []
replicate (suc n) b = b ∷ replicate n b

abbrev pub same_bytes : List ℕ → List ℕ → Bool
same_bytes [] [] = true
same_bytes [] (c ∷ cs) = false
same_bytes (b ∷ bs) [] = false
same_bytes (b ∷ bs) (c ∷ cs) = eqb b c && same_bytes bs cs

-- Seventeen decimal digits: texts that are ordered as the times are.
abbrev digits : ℕ → ℕ → List ℕ
digits zero n = []
digits (suc k) n = digits k (n / 10) ++ (b'0' + n % 10) ∷ []

abbrev number : ℕ → List ℕ → ℕ
number n [] = n
number n (d ∷ ds) = number (n * 10 + (d - b'0')) ds

abbrev total : List ℕ → ℕ
total [] = 0
total (b ∷ bs) = b + total bs

-- A cipher for tests: shifted bytes, and a tag over the key, the nonce and the plaintext.
abbrev tag : List ℕ → List ℕ → List ℕ → ℕ
tag key nonce plaintext = (total key + total nonce + total plaintext) % 256

abbrev shift : ℕ → List ℕ → List ℕ
shift k = map (λ b. (b + k) % 256)

abbrev seal : List ℕ → List ℕ → List ℕ → Outcome String (List ℕ)
seal key nonce plaintext = ok (shift 1 plaintext ++ tag key nonce plaintext ∷ [])

abbrev split_last : List ℕ → Option (List ℕ × ℕ)
split_last [] = none
split_last (b ∷ []) = some ([], b)
split_last (b ∷ bs) = elim (split_last bs) [
  | none ↦ none
  | some (front, last) ↦ some (b ∷ front, last)
]

abbrev checked : List ℕ → List ℕ → Option (List ℕ × ℕ) → Outcome String (List ℕ)
checked key nonce none = err "no tag"
checked key nonce (some (front, last)) =
    let plaintext = shift 255 front in
    if eqb last (tag key nonce plaintext) then ok plaintext else err "aead::Error"

-- A host for the tests, with a late clock and fresh nonces.
abbrev pub lab : Host
lab = record machine {
  utc_now = λ n. 90000000000000000 + n;
  unix_time = λ n. some (1000 + n);
  to_rfc3339 = λ t. text_of (digits 17 t);
  parse_from_rfc3339 = λ s. some (number 0 (codes s));
  random_nonce = λ n. n ∷ replicate 11 0;
  gcm_encrypt = seal;
  gcm_decrypt = λ key nonce c. checked key nonce (split_last c);
}

abbrev pub engine : Engine
engine = record {
  connect = λ path. ok empty;
  set_pragmas = λ db. ok db;
  create_tables = λ db. ok db;
  connect_in_memory = ok empty;
  enforce_foreign_keys = λ db. ok db;
}

-- `Database::open_in_memory().unwrap()`
abbrev pub open_database : Exec AppError (Unit {0})
open_database = do db ← unwrap (lift (open_in_memory engine)); writes (λ _. db)
