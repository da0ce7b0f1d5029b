-- ===== src/Api/Auth/Laws.antt =====
-- The API-key middleware and the resolution of tenants (src/api/auth.rs).
use uni_mail.Common.{
  ◌≡◌, ◌↔◌, ◌⊎◌, refl, false, Option, none, some, arith, String, Option-cases, inl, inr,
}
use uni_mail.Error.{ok}
use uni_mail.Exec.{Exec, World}
use uni_mail.Config.{Config, map_get, map_is_empty}
use uni_mail.Api.Auth.{
  Headers, extract_api_key, tenant_of, resolve_tenant, Reply, unauthorized, api_key_middleware,
}

-- The key is registered, and stands for this tenant.
abbrev pub StandsFor : Config → Option String → String → Type 0
StandsFor config key tenant =
    (k : String) × (v : String) × (key ≡ some k)
    × (map_get k config.api_keys ≡ some v)
    × (tenant_of config v ≡ tenant)

resolve_tenant_sound :
    (config : Config) (key : Option String) (tenant : String)
    → map_is_empty config.api_keys ≡ false
    → resolve_tenant config key ≡ some tenant
    → StandsFor config key tenant
unfolding resolve_tenant
resolve_tenant_sound config none tenant closed h = absurd (ground arith)
resolve_tenant_sound config (some k) tenant closed h =
    elim (Option-cases (map_get k config.api_keys)) [
      | inl missing ↦ absurd (ground arith)
      | inr (v, listed) ↦ (k, v, refl, listed, ground arith)
    ]

resolve_tenant_complete :
    (config : Config) (key : Option String) (tenant : String)
    → map_is_empty config.api_keys ≡ false
    → StandsFor config key tenant
    → resolve_tenant config key ≡ some tenant
unfolding resolve_tenant
resolve_tenant_complete config key tenant closed (k, v, given, listed, same) =
    rw (closed, given, listed, same) refl

-- With keys configured, a tenant is resolved exactly from a registered key: the tenant registered
-- for it, or the default tenant where that is empty.
pub resolve_tenant_iff :
    (config : Config) (key : Option String) (tenant : String)
    → map_is_empty config.api_keys ≡ false
    → (resolve_tenant config key ≡ some tenant) ↔ StandsFor config key tenant
resolve_tenant_iff config key tenant closed = (
  resolve_tenant_sound config key tenant closed,
  resolve_tenant_complete config key tenant closed,
)

pub middleware_cases :
    {E B : Type 0} (config : Config) (headers : Headers) (next : String → Exec E (Reply B))
    (w : World)
    → ((tenant : String) × (resolve_tenant config (extract_api_key headers) ≡ some tenant)
        × (api_key_middleware config headers next w ≡ next tenant w))
      ⊎ (api_key_middleware config headers next w
          ≡ (ok (unauthorized "invalid or missing API key"), w))
unfolding api_key_middleware
middleware_cases config headers next w =
    elim (Option-cases (resolve_tenant config (extract_api_key headers))) [
      | inl refused ↦ inr (rw (api_key_middleware, refused) refl)
      | inr (tenant, known) ↦ inl (tenant, known, rw (api_key_middleware, known) refl)
    ]

-- With keys configured, a protected handler runs only as the tenant of a registered key that the
-- request carries; every other request is refused, with no effect at all.
pub middleware_guards :
    {E B : Type 0} (config : Config) (headers : Headers) (next : String → Exec E (Reply B))
    (w : World)
    → map_is_empty config.api_keys ≡ false
    → ((tenant : String) × StandsFor config (extract_api_key headers) tenant
        × (api_key_middleware config headers next w ≡ next tenant w))
      ⊎ (api_key_middleware config headers next w
          ≡ (ok (unauthorized "invalid or missing API key"), w))
middleware_guards config headers next w closed = elim (middleware_cases config headers next w) [
  | inl (tenant, known, e) ↦ inl (tenant, resolve_tenant_sound config _ tenant closed known, e)
  | inr e ↦ inr e
]
