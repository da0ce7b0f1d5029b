-- ===== src/Tests/Source/Config.antt =====
-- The unit tests of src/config.rs.
use Prim.Native.String
use uni_mail.Common.{
  ℕ, zero, suc, refl, Bool, true, false, List, [], ◌∷◌, Option, none, some, String, ◌==◌, pos,
  if◌then◌else◌,
}
use uni_mail.Error.{Outcome, ok, err, panic, AppError}
use uni_mail.Exec.{Exec, ◌>>=◌, ◌>>◌, lift}
use uni_mail.Config.{Config, parse_key, parse_api_keys, map_get}
use uni_mail.Tests.Machine.{codes}
use uni_mail.Tests.Source.{assert, unwrap, unwrap_some, Passes, replicate, same_bytes}

-- `Config::test_default`
abbrev pub test_default : Config
test_default = record {
  client_id = "client";
  client_secret = "secret";
  redirect_uri = "http://localhost";
  auth_url = "https://login.microsoftonline.com/common/oauth2/v2.0/authorize";
  token_url = "https://login.microsoftonline.com/common/oauth2/v2.0/token";
  graph_base_url = "https://graph.microsoft.com/v1.0";
  encryption_key = replicate 32 7;
  database_path = ":memory:";
  api_keys = [];
  default_tenant_id = "default";
  api_bind_addr = "127.0.0.1:0";
  callback_bind_addr = none;
  token_inactivity_days = pos 90;
  refresh_interval_secs = 3600;
}

-- `text.repeat(n)`
abbrev repeat : String → ℕ → String
repeat text zero = ""
repeat text (suc n) = String.◌++◌ text (repeat text n)

-- Of the texts that the tests try as base64, one is.
abbrev base64 : String → Option (List ℕ)
base64 s = if s == "abcd" then some (0x69 ∷ 0xb7 ∷ 0x1d ∷ []) else none

abbrev parsed : String → Outcome AppError (List ℕ)
parsed = parse_key base64 codes

abbrev parse_hex_key : Exec AppError (Unit {0})
parse_hex_key = do
  key ← unwrap (lift (parsed (repeat "00" 32)))
  assert (same_bytes key (replicate 32 0))

abbrev is_err : Outcome AppError (List ℕ) → Bool
is_err (ok a) = false
is_err (err e) = true
is_err (panic m) = false

abbrev parse_key_rejects_bad_length : Exec AppError (Unit {0})
parse_key_rejects_bad_length = do
  assert (is_err (parsed "abcd"))
  assert (is_err (parsed (repeat "00" 31)))

abbrev api_keys_parse : Exec AppError (Unit {0})
api_keys_parse = do
  let map = parse_api_keys "sk-a=tenant-1, sk-b ,sk-c=tenant-2"
  a ← unwrap_some (map_get "sk-a" map)
  assert (a == "tenant-1")
  b ← unwrap_some (map_get "sk-b" map)
  assert (b == "")
  c ← unwrap_some (map_get "sk-c" map)
  assert (c == "tenant-2")

parse_hex_key-Passes : Passes parse_hex_key
unfolding parse_key
parse_hex_key-Passes = refl

parse_key_rejects_bad_length-Passes : Passes parse_key_rejects_bad_length
unfolding parse_key
parse_key_rejects_bad_length-Passes = refl

api_keys_parse-Passes : Passes api_keys_parse
unfolding parse_api_keys map_get
api_keys_parse-Passes = refl
