-- ===== src/Tests/Api.antt =====
-- The properties of src/api, src/config.rs and src/auth/callback.rs on the machine.
use uni_mail.Common.{ℕ, ◌≡◌, ◌⊎◌, refl, none, some, List, [], ◌∷◌, String, true, false, pos, arith}
use uni_mail.Error.{ok, err, AppError, auth, is_ok}
use uni_mail.Exec.{Exec, pure}
use uni_mail.Config.{Config, map_get, parse_api_keys}
use uni_mail.Config.Keys.{map_get-parse_api_keys}
use uni_mail.Config.Hex.{hex_decode, hex_encode, hex_decode-hex_encode}
use uni_mail.Api.Auth.{Headers, Reply, answered, unauthorized, extract_api_key, api_key_middleware}
use uni_mail.Api.Auth.Laws.{StandsFor, middleware_guards}
use uni_mail.Provider.{UnifiedEmail}
use uni_mail.Api.Json.{unified_json}
use uni_mail.Api.Json.Laws.{read_unified, read_unified-unified_json}
use uni_mail.Auth.Callback.{
  CallbackParams, CallbackState, Page, escape_html, complete_callback, handle_callback, outcome,
}
use uni_mail.Auth.Callback.Escape.{
  IsInert, escape_once, escape_html-eq-escape_once, escape_html-IsInert,
}
use uni_mail.Auth.Callback.Laws.{handle_callback_lem}
use uni_mail.Tests.Machine.{machine, master_key, manager, start}

abbrev pub settings : Config
settings = record {
  client_id = "client";
  client_secret = "secret";
  redirect_uri = "https://back";
  auth_url = "https://auth";
  token_url = "https://token";
  graph_base_url = "https://graph";
  encryption_key = master_key;
  database_path = "mail.db";
  api_keys = ("k1", "t1") ∷ ("k2", "") ∷ [];
  default_tenant_id = "default";
  api_bind_addr = "127.0.0.1:8080";
  callback_bind_addr = none;
  token_inactivity_days = pos 90;
  refresh_interval_secs = 21600;
}

-- The handler answers with the tenant that it runs as.
abbrev handler : String → Exec AppError (Reply String)
handler tenant = pure (answered tenant)

abbrev bearer : Headers
bearer = ("authorization", some "Bearer k2") ∷ []

middleware_guards_example :
    ((tenant : String) × StandsFor settings (extract_api_key bearer) tenant
      × (api_key_middleware settings bearer handler start ≡ handler tenant start))
    ⊎ (api_key_middleware settings bearer handler start
        ≡ (ok (unauthorized "invalid or missing API key"), start))
middleware_guards_example = middleware_guards settings bearer handler start refl

hex_decode-hex_encode_example : hex_decode 2 (hex_encode (171 ∷ 9 ∷ [])) ≡ some (171 ∷ 9 ∷ [])
hex_decode-hex_encode_example =
    hex_decode-hex_encode 2 (171 ∷ 9 ∷ []) refl (omega arith, (omega arith, tt))

abbrev byte : List ℕ
byte = 171 ∷ []

escape_html-eq-escape_once_example : escape_html "<a & b>" ≡ escape_once "<a & b>"
escape_html-eq-escape_once_example = escape_html-eq-escape_once "<a & b>"

escape_html-IsInert_example : IsInert (escape_html "<a href=\"x\">")
escape_html-IsInert_example = escape_html-IsInert "<a href=\"x\">"

-- The redirect of a consent that was denied.
abbrev denied : CallbackParams
denied = record {
  code = none;
  state = some "state";
  error = some "access_denied";
  error_description = none;
}

abbrev waiting : CallbackState
waiting = record { slot = some none; done = true }

abbrev denied_page : Page
denied_page = record {
  status = 400;
  text = "authorization error: Authorization failed: access_denied";
}

abbrev denied_state : CallbackState
denied_state = record {
  slot = some (some (err (auth "Authorization failed: access_denied")));
  done = false;
}

handle_callback_lem_example :
    (outcome denied_state ≡ (complete_callback machine manager denied start).0)
    × (denied_state.done ≡ false)
    × (((denied_page.status ≡ 200) × (is_ok (outcome denied_state) ≡ true))
        ⊎ ((denied_page.status ≡ 400) × (is_ok (outcome denied_state) ≡ false)))
unfolding handle_callback complete_callback
handle_callback_lem_example =
    handle_callback_lem machine manager waiting denied_state denied start denied_page none refl refl

-- A key that is given twice, and a blank entry.
map_get-parse_api_keys_example : map_get "k1" (parse_api_keys "k1=t1, k2, k1 = t3") ≡ some "t3"
unfolding uni_mail.Text.split uni_mail.Text.trim uni_mail.Text.split_once
map_get-parse_api_keys_example = map_get-parse_api_keys "k1=t1, k2, k1 = t3" "k1"

-- A message with no subject and one recipient.
abbrev letter : UnifiedEmail
letter = record {
  email = record {
    id = "m1";
    subject = none;
    from = some (record { name = some "Bob"; address = "bob@example.org" });
    to = record { name = none; address = "ada@example.org" } ∷ [];
    body_preview = some "hello";
    body = none;
    received_at = some "2024-01-01T00:00:00Z";
    is_read = false;
  };
  account = record { id = "a1"; email = "ada@example.org" };
}

read_unified-unified_json_example : read_unified (unified_json letter) ≡ some letter
read_unified-unified_json_example = read_unified-unified_json letter
