-- ===== src/Api/Auth.antt =====
-- src/api/auth.rs: the API key of a request, and the tenant that it stands for.
pub mod Laws
use uni_mail.Common.{
  ◌≡◌, ◌≢◌, ◌↔◌, refl, Bool, true, false, List, [], ◌∷◌, Option, none, some, ◌==◌, eq_iff, arith,
  String, if◌then◌else◌, ℕ, Option-cases, inl, inr,
}
use mathlib.Core.Option
use uni_mail.Error.{AppError}
use uni_mail.Exec.{Exec, World, pure}
use uni_mail.Text.{trim, strip_prefix}
use uni_mail.Config.{Config, map_get, map_is_empty}

-- The headers of a request, with lower-case names; a value that is no visible ASCII has no text.
abbrev pub Headers : Type 0
Headers = List (String × Option String)

-- `headers().get(name).and_then(|v| v.to_str().ok())`
unfoldable pub header : String → Headers → Option String
header name [] = none
header name ((n, v) ∷ rest) = if n == name then v else header name rest

abbrev api_key_header : Headers → Option String
api_key_header headers = Option.map trim (header "x-api-key" headers)

abbrev bearer_or : Option String → Headers → Option String
bearer_or none headers = api_key_header headers
bearer_or (some key) headers = some (trim key)

-- `extract_api_key`
unfoldable pub extract_api_key : Headers → Option String
unfolding header trim strip_prefix
extract_api_key headers = elim (header "authorization" headers) [
  | none ↦ api_key_header headers
  | some value ↦ bearer_or (strip_prefix "Bearer " value) headers
]

-- The tenant of a registered key; an empty one is the default.
abbrev pub tenant_of : Config → String → String
tenant_of config tenant = if tenant == "" then config.default_tenant_id else tenant

abbrev pub registered : Config → Option String → Option String
registered config none = none
registered config (some key) = Option.map (tenant_of config) (map_get key config.api_keys)

-- `resolve_tenant`
unfoldable pub resolve_tenant : Config → Option String → Option String
unfolding map_get
resolve_tenant config key =
    if map_is_empty config.api_keys then some config.default_tenant_id else registered config key

-- A response: the status with a body of its own kind, or the middleware's refusal.
pub data Reply (B : Type 0) : Type 0 where
  answered : B → Reply B
  unauthorized : String → Reply B

-- `api_key_middleware`, around the handler that it protects
unfoldable pub api_key_middleware :
    {E B : Type 0} → Config → Headers → (String → Exec E (Reply B)) → Exec E (Reply B)
unfolding resolve_tenant extract_api_key
api_key_middleware config headers next = elim (resolve_tenant config (extract_api_key headers)) [
  | some tenant ↦ next tenant
  | none ↦ pure (unauthorized "invalid or missing API key")
]
