-- ===== src/Tests/Machine.antt =====
-- A machine on which every law that the properties assume is proved: its clock counts the answers it
-- has given, times are unary texts, characters are encoded by their numbers and the cipher marks
-- its plaintext. It serves tests only.
use Prim.Native.Nat.{Ordering, compare}
use Prim.Native.Nat.compare as compare_ℕ
use Prim.Native.Char.{Char, char, code, IsLt, nul}
use Prim.Native.String.{String, [], ◌∷◌, compare as compare_text}
use Prim.Native.String.compare as compare_text
use text.Mathlib.TextEquality.{Char-path}
use mathlib.Core.List.{List, [], ◌∷◌}
use uni_mail.Common.{ℕ, zero, suc, min, ◌≡◌, ◌∙◌, sym, refl, ap, false, Option, none, some, arith}
use uni_mail.Error.{Outcome, ok, err, AppError}
use uni_mail.Json
use uni_mail.Host.{Host, Request, code_grant}
use uni_mail.Exec.{World, pure}
use uni_mail.Storage.Models.{Account, AccountRow, active}
use uni_mail.Storage.Tokens.{StoredToken, upsert}
use uni_mail.Auth.Token.{TokenManager}
use uni_mail.Auth.Returns.{HasReliableCrates}
use uni_mail.Auth.Token.Calm.{HasCalmCrates}
use uni_mail.Auth.Oauth.{lifetime, TokenSet}
use uni_mail.Exec.Calm.{NoPanic}
use uni_mail.Storage.Crypto.Laws.{HasCipher}
use uni_mail.Storage.Tokens.Laws.{HasCodecs, IsFourDigit}
use uni_mail.Storage.Tokens.Represents.{HasOrderedTimes}

-- What `IsScalar` says of its three comparisons.
abbrev BothLt : Ordering → Ordering → Type 0
BothLt Ordering.lt o = IsLt o
BothLt Ordering.eq _ = ⊥
BothLt Ordering.gt _ = ⊥

abbrev ScalarBy : Ordering → Ordering → Ordering → Type 0
ScalarBy Ordering.lt _ _ = Unit
ScalarBy Ordering.eq o p = BothLt o p
ScalarBy Ordering.gt o p = BothLt o p

-- The character of a number, NUL for a number that has none.
abbrev char_by : (n : ℕ) (o p q : Ordering) → (ScalarBy o p q → Char) → Char
char_by n Ordering.lt p q f = f tt
char_by n Ordering.eq Ordering.lt Ordering.lt f = f tt
char_by n Ordering.gt Ordering.lt Ordering.lt f = f tt
char_by n _ _ _ f = nul

abbrev to_char : ℕ → Char
to_char n = char_by n (compare n 55296) (compare 57343 n) (compare n 1114112) (λ s. char n s)

char_by-eq :
    (n : ℕ) (o p q : Ordering) (f : ScalarBy o p q → Char) (s : ScalarBy o p q)
    → ((t : ScalarBy o p q) → code (f t) ≡ n)
    → code (char_by n o p q f) ≡ n
char_by-eq n Ordering.lt p q f s h = h tt
char_by-eq n Ordering.eq Ordering.lt Ordering.lt f s h = h tt
char_by-eq n Ordering.gt Ordering.lt Ordering.lt f s h = h tt
char_by-eq n Ordering.eq Ordering.lt Ordering.eq f s h = absurd s
char_by-eq n Ordering.eq Ordering.lt Ordering.gt f s h = absurd s
char_by-eq n Ordering.eq Ordering.eq q f s h = absurd s
char_by-eq n Ordering.eq Ordering.gt q f s h = absurd s
char_by-eq n Ordering.gt Ordering.lt Ordering.eq f s h = absurd s
char_by-eq n Ordering.gt Ordering.lt Ordering.gt f s h = absurd s
char_by-eq n Ordering.gt Ordering.eq q f s h = absurd s
char_by-eq n Ordering.gt Ordering.gt q f s h = absurd s

to_char-code : (c : Char) → to_char (code c) ≡ c
to_char-code (char n s) = Char-path _ _ (
    char_by-eq n (compare n 55296) (compare 57343 n) (compare n 1114112) (λ t. char n t) s
      (λ t. refl))

abbrev pub codes : String → List ℕ
codes [] = []
codes (c ∷ s) = code c ∷ codes s

abbrev pub text_of : List ℕ → String
text_of [] = []
text_of (n ∷ ns) = to_char n ∷ text_of ns

text_of-codes : (s : String) → text_of (codes s) ≡ s
text_of-codes [] = refl
text_of-codes (c ∷ s) = rw (to_char-code c, text_of-codes s) refl

-- Times as unary texts.
abbrev mark : Char
mark = to_char b'1'

abbrev pub tally : ℕ → String
tally zero = []
tally (suc n) = mark ∷ tally n

abbrev pub count : String → ℕ
count [] = zero
count (c ∷ s) = suc (count s)

pub count-tally : (n : ℕ) → count (tally n) ≡ n
count-tally zero = refl
count-tally (suc n) = ap suc (count-tally n)

tally_ordered : (m n : ℕ) → compare_text (tally m) (tally n) ≡ compare m n
tally_ordered zero zero = compare_text.nil-nil ∙ sym compare_ℕ.zero-zero
tally_ordered zero (suc n) = compare_text.nil-cons mark (tally n) ∙ sym (compare_ℕ.zero-suc n)
tally_ordered (suc m) zero = compare_text.cons-nil mark (tally m) ∙ sym (compare_ℕ.suc-zero m)
tally_ordered (suc m) (suc n) =
    compare_text.cons-cons mark mark (tally m) (tally n)
    ∙ tally_ordered m n
    ∙ sym (compare_ℕ.suc-suc m n)

abbrev pub twelve : List ℕ
twelve = 0 ∷ 1 ∷ 2 ∷ 3 ∷ 4 ∷ 5 ∷ 6 ∷ 7 ∷ 8 ∷ 9 ∷ 10 ∷ 11 ∷ []

abbrev pub unmark : List ℕ → Outcome String (List ℕ)
unmark [] = err "no tag"
unmark (_ ∷ p) = ok p

abbrev refresh_for : Request → Option String
refresh_for (code_grant code verifier) = some "first refresh"
refresh_for _ = none

-- The token endpoint answers a code with a refresh token, and a refresh without a new one.
abbrev pub machine : Host
machine = record {
  utc_now = λ n. min n 1000;
  max_time = 100000000000000000000000000;
  unix_time = λ n. some n;
  to_rfc3339 = tally;
  parse_from_rfc3339 = λ s. some (count s);
  as_bytes = codes;
  from_utf8 = λ bytes. ok (text_of bytes);
  new_uuid = tally;
  random_nonce = λ n. twelve;
  cipher_error = λ key. none;
  gcm_encrypt = λ key nonce plaintext. ok (0 ∷ plaintext);
  gcm_decrypt = λ key nonce ciphertext. unmark ciphertext;
  sql_fault = λ n. none;
  sql_lower = λ s. s;
  order_by_updated = λ rows. rows;
  order_inactive = λ rows. rows;
  foreign_key_error = "FOREIGN KEY constraint failed";
  consent = λ n client scopes. record { url = "https://consent"; verifier = "v"; state = "s" };
  token_endpoint = λ n client request. ok (record {
    access_token = "new access";
    refresh_token = refresh_for request;
    expires_in = some 5;
    scopes = some ("Mail.Read" ∷ "Mail.Send" ∷ []);
  });
  send = λ n request. ok (record { status = 200; text = some "{}" });
  parse_json = λ text. ok Json.Value.null;
  parse_url = λ text. ok text;
}

abbrev pub master_key : List ℕ
master_key = 7 ∷ []

pub machine-HasCipher : HasCipher machine master_key
machine-HasCipher = record {
  accepts = refl;
  nonce_size = λ n. refl;
  seals = λ nonce plaintext. (0 ∷ plaintext, refl, omega arith, refl);
}

pub machine-utf8 : (s : String) → machine.from_utf8 (machine.as_bytes s) ≡ ok s
machine-utf8 s = ap ok (text_of-codes s)

abbrev pub machine-HasCodecs : HasCodecs machine
machine-HasCodecs = record {
  utf8 = machine-utf8;
  first = 0;
  last = 5000;
  rfc3339 = λ t late early. ap some (count-tally t);
}

-- When the token set that was answered runs out.
abbrev pub expiry_of : Outcome AppError TokenSet → Option ℕ
expiry_of (ok set) = set.expires_at
expiry_of _ = none

pub machine-clock : (n : ℕ) → IsFourDigit machine-HasCodecs (machine.utc_now n)
machine-clock n = (omega arith, omega arith)

pub machine-HasOrderedTimes : HasOrderedTimes machine-HasCodecs
machine-HasOrderedTimes s t from to = tally_ordered s t

-- A database with two tenants' accounts, of which none is connected.
abbrev row : String → String → String → String → AccountRow
row id tenant_id email status = record {
  id = id;
  tenant_id = tenant_id;
  email_address = email;
  display_name = none;
  provider = "microsoft";
  status = status;
  created_at = "";
  updated_at = "";
}

abbrev pub start : World
start = record {
  db = record {
    accounts =
        row "a1" "t1" "ada@example.org" "active"
        ∷ row "a2" "t2" "bob@example.org" "disconnected"
        ∷ [];
    tokens = [];
    flows = [];
    poisoned = false;
  };
  refresh_locks = [];
  answers = 3;
  requests = [];
}

abbrev pub ada : Account
ada = record {
  id = "a1";
  tenant_id = "t1";
  email_address = "ada@example.org";
  display_name = none;
  provider = "microsoft";
  status = active;
  created_at = "";
  updated_at = "";
}

abbrev pub sample_token : StoredToken
sample_token = record {
  access_token = "old access";
  refresh_token = "old refresh";
  scope = some "Mail.Read";
  expires_at = some 4;
  last_used_at = none;
  updated_at = 2;
}

-- The database once that token is stored for the first account.
abbrev pub connected : World
connected = (upsert machine master_key "a1" sample_token start).1

abbrev pub manager : TokenManager
manager = record {
  oauth = record {
    client_id = "client";
    client_secret = "secret";
    auth_url = "https://auth";
    token_url = "https://token";
    redirect_uri = "https://back";
  };
  key = master_key;
  profile = record {
    resolve = λ access. pure (record { email = "ada@example.org"; display_name = some "Ada" });
  };
}

unmark_calm : (bytes : List ℕ) → NoPanic (unmark bytes)
unmark_calm [] = tt
unmark_calm (b ∷ p) = tt

pub machine-HasCalmCrates : HasCalmCrates machine
unfolding lifetime
machine-HasCalmCrates = record {
  encrypts = λ key nonce plaintext. tt;
  decrypts = λ key nonce ciphertext. unmark_calm ciphertext;
  decodes = λ bytes. tt;
  parses = λ url. tt;
  answers = λ n c r. tt;
  on_time = λ n k d c r response answered expires. ground arith;
}

pub machine-HasReliableCrates : HasReliableCrates machine
machine-HasReliableCrates = record {
  calm = machine-HasCalmCrates;
  before_end = λ n. omega arith;
  sends = λ n r. tt;
  parses_json = λ text. tt;
}
