-- ===== src/Tests/Commands.antt =====
-- The properties of src/mcp, src/cli and the loading of src/config.rs on the machine.
use uni_mail.Common.{
  ℕ, ◌≡◌, ◌<◌, ◌^◌, refl, negsuc, String, none, some, List, [], ◌∷◌, Option, length, find, any,
  select, arith, ◌==◌, if◌then◌else◌,
}
use uni_mail.Error.{ok}
use uni_mail.Exec.{lock}
use uni_mail.Storage.Models.{Account}
use uni_mail.Storage.Crypto.{encrypt}
use uni_mail.Storage.Tokens
use uni_mail.Storage.Tokens.{owned_by}
use uni_mail.Storage.Accounts
use uni_mail.Storage.Accounts.{has_id}
use uni_mail.Config.{Config, parse_key}
use uni_mail.Config.Env.{from_env, settings}
use uni_mail.Config.Env.Laws.{IsGiven, from_env_sound}
use uni_mail.Mcp.{resolve_in}
use uni_mail.Mcp.Laws.{IsNamed, resolve_in_sound}
use uni_mail.Cli.{remove_account, tenant_or_default}
use uni_mail.Cli.Loop.{refresh_rounds, refresh_rounds_live}
use uni_mail.Storage.Accounts.Removal.{IsInTable}
use uni_mail.Cli.Laws.{remove_account_lem}
use uni_mail.Tests.Machine.{machine, manager, machine-HasCalmCrates, start, connected, ada}
use uni_mail.Tests.Provider.{service}
use uni_mail.Cli.Serve.{openers, open_browser}

-- An account by its email.
resolve_in_sound_example : IsNamed machine service "t1" "ada@example.org" ada
unfolding resolve_in Accounts.get lock Accounts.query_accounts Accounts.first select
    Accounts.get_by_email uni_mail.Storage.Models.parse_status
resolve_in_sound_example = resolve_in_sound machine service "t1" "ada@example.org" ada start refl

remove_account_lem_example :
    (a : Account) × IsInTable a connected.accounts
    × IsNamed machine service (tenant_or_default service (some "t1")) "ada@example.org" a
    × (find
          (has_id (tenant_or_default service (some "t1")) a.id)
          (remove_account machine service "ada@example.org" (some "t1") connected).1.accounts
        ≡ none)
    × (find
          (owned_by a.id)
          (remove_account machine service "ada@example.org" (some "t1") connected).1.tokens
        ≡ none)
unfolding remove_account Accounts.get lock Tokens.upsert encrypt Tokens.insert_row any
    Accounts.query_accounts Accounts.first select Accounts.get_by_email Accounts.delete
remove_account_lem_example =
    remove_account_lem machine service "ada@example.org" (some "t1")
      ("Removed account ada@example.org" ∷ []) connected refl

refresh_rounds_live_example :
    (counts : List ℕ) × ((refresh_rounds machine manager (negsuc 4) 3 connected).0 ≡ ok counts)
    × (length counts ≡ 3)
unfolding uni_mail.Auth.Batch.Returns.IsTimely
refresh_rounds_live_example =
    refresh_rounds_live machine-HasCalmCrates manager (negsuc 4) (λ n. omega arith) 3 connected

-- An environment with the required variables only; the key is given in base64.
abbrev variables : String → Option String
variables name =
    if name == "CLIENT_ID"
    then some "client"
    else if name == "CLIENT_SECRET"
    then some "secret"
    else if name == "ENCRYPTION_KEY"
    then some "key"
    else none

abbrev key : List ℕ
key =
    0 ∷ 1 ∷ 2 ∷ 3 ∷ 4 ∷ 5 ∷ 6 ∷ 7 ∷ 0 ∷ 1 ∷ 2 ∷ 3 ∷ 4 ∷ 5 ∷ 6 ∷ 7 ∷ 0 ∷ 1 ∷ 2 ∷ 3 ∷ 4 ∷ 5 ∷ 6 ∷ 7
    ∷ 0 ∷ 1 ∷ 2 ∷ 3 ∷ 4 ∷ 5 ∷ 6 ∷ 7 ∷ []

abbrev base64 : String → Option (List ℕ)
base64 text = some key

abbrev as_bytes : String → List ℕ
as_bytes text = []

abbrev loaded : Config
loaded = settings variables base64 as_bytes "client" "secret" key

from_env_sound_example :
    IsGiven variables "CLIENT_ID" loaded.client_id
    × IsGiven variables "CLIENT_SECRET" loaded.client_secret
    × ((raw : String) × IsGiven variables "ENCRYPTION_KEY" raw
        × (parse_key base64 as_bytes raw ≡ ok loaded.encryption_key))
    × (length loaded.encryption_key ≡ 32)
    × (loaded.refresh_interval_secs < 2 ^ 64)
unfolding from_env uni_mail.Config.env parse_key
from_env_sound_example = from_env_sound variables base64 as_bytes loaded refl

-- The second opener is tried when the first cannot be spawned.
open_browser-second : open_browser (λ name. name == "sensible-browser") openers ≡ openers
unfolding open_browser
open_browser-second = refl
