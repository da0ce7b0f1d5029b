-- ===== src/Tests/Source/Keys.antt =====
-- The unit tests of src/api/auth.rs.
use uni_mail.Common.{refl, Bool, true, false, List, [], ◌∷◌, Option, none, some, String, ◌==◌}
use uni_mail.Error.{AppError}
use uni_mail.Exec.{Exec, ◌>>◌}
use uni_mail.Config.{Config}
use uni_mail.Api.Auth.{resolve_tenant}
use uni_mail.Tests.Source.{assert, Passes}
use uni_mail.Tests.Source.Config.{test_default}

abbrev config_with : List (String × String) → Config
config_with keys = record test_default { api_keys = keys }

abbrev is : Option String → String → Bool
is none t = false
is (some s) t = s == t

abbrev is_none : Option String → Bool
is_none none = true
is_none (some s) = false

abbrev open_when_no_keys_configured : Exec AppError (Unit {0})
open_when_no_keys_configured = assert (is (resolve_tenant test_default none) "default")

abbrev maps_key_to_tenant : Exec AppError (Unit {0})
maps_key_to_tenant = do
  let cfg = config_with (("sk-a", "tenant-a") ∷ ("sk-b", "") ∷ [])
  assert (is (resolve_tenant cfg (some "sk-a")) "tenant-a")
  assert (is (resolve_tenant cfg (some "sk-b")) "default")
  assert (is_none (resolve_tenant cfg (some "unknown")))

open_when_no_keys_configured-Passes : Passes open_when_no_keys_configured
unfolding resolve_tenant
open_when_no_keys_configured-Passes = refl

maps_key_to_tenant-Passes : Passes maps_key_to_tenant
unfolding resolve_tenant
maps_key_to_tenant-Passes = refl
