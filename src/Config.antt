-- ===== src/Config.antt =====
-- src/config.rs: the settings of the environment. Base64 is decoded by a crate, and the
-- environment's variables are a parameter.
pub mod Hex
pub mod Keys
pub mod Numbers
pub mod Env
use Prim.Native.String
use Prim.Native.String.{◌++◌}
use uni_mail.Common.{
  ℕ, ℤ, Bool, true, false, not, List, [], ◌∷◌, Option, none, some, ◌==◌, eqb, if◌then◌else◌, String,
  length,
}
use mathlib.Core.Option
use uni_mail.Error.{Outcome, ok, err, panic, map_err, AppError, config}
use uni_mail.Text.{trim, split, split_once}
use Hex.{hex_decode}

-- `HashMap<String, String>`: only `insert`, `get` and `is_empty` are used.
abbrev pub KeyMap : Type 0
KeyMap = List (String × String)

unfoldable pub map_get : String → KeyMap → Option String
map_get k [] = none
map_get k ((j, v) ∷ rest) = if j == k then some v else map_get k rest

unfoldable pub map_insert : String → String → KeyMap → KeyMap
map_insert k v [] = (k, v) ∷ []
map_insert k v ((j, w) ∷ rest) = if j == k then (k, v) ∷ rest else (j, w) ∷ map_insert k v rest

-- `map.is_empty()`
abbrev pub map_is_empty : KeyMap → Bool
map_is_empty [] = true
map_is_empty _ = false

-- One entry of `API_KEYS` that is not empty.
abbrev pub insert_entry : String → Option (String × String) → KeyMap → KeyMap
insert_entry part none m = map_insert part "" m
insert_entry part (some (key, tenant)) m = map_insert (trim key) (trim tenant) m

-- The loop of `parse_api_keys`
unfoldable pub insert_parts : List String → KeyMap → KeyMap
unfolding map_insert trim split_once
insert_parts [] m = m
insert_parts (raw ∷ rest) m =
    let part = trim raw in
    insert_parts rest (if part == "" then m else insert_entry part (split_once b'=' part) m)

-- `parse_api_keys`
unfoldable pub parse_api_keys : String → KeyMap
unfolding insert_parts split
parse_api_keys raw = insert_parts (split b',' raw) []

pub record Config : Type 0 where
  pub client_id : String
  pub client_secret : String
  pub redirect_uri : String
  pub auth_url : String
  pub token_url : String
  pub graph_base_url : String
  pub encryption_key : List ℕ
  pub database_path : String
  pub api_keys : KeyMap
  pub default_tenant_id : String
  pub api_bind_addr : String
  pub callback_bind_addr : Option String
  pub token_inactivity_days : ℤ
  pub refresh_interval_secs : ℕ

-- `tenant_for_key`
unfoldable pub tenant_for_key : Config → String → Option String
unfolding map_get
tenant_for_key c key = map_get key c.api_keys

-- `env`: a variable that is missing or blank is an error.
unfoldable pub env : (String → Option String) → String → Outcome AppError String
unfolding trim
env variables key = elim (variables key) [
  | none ↦ err (config ("missing required environment variable " ++ key))
  | some v ↦
      if trim v == "" then err (config ("environment variable " ++ key ++ " is empty")) else ok v
]

abbrev pub key_size : ℕ
key_size = 32

-- The base64 reading of `parse_key`
abbrev pub from_base64 : Option (List ℕ) → Outcome AppError (List ℕ)
from_base64 none = err (config "ENCRYPTION_KEY must be exactly 32 bytes (64 hex chars or base64)")
from_base64 (some decoded) =
    if eqb (length decoded) key_size
    then ok decoded
    else err (config "ENCRYPTION_KEY must be exactly 32 bytes (64 hex chars or base64)")

abbrev pub from_hex : Option (List ℕ) → Outcome AppError (List ℕ)
from_hex none = err (config "ENCRYPTION_KEY must be 64 hex characters")
from_hex (some key) = ok key

-- `parse_key`, over the crate's decoder and the bytes of a text
unfoldable pub parse_key :
    (String → Option (List ℕ)) → (String → List ℕ) → String → Outcome AppError (List ℕ)
unfolding trim hex_decode
parse_key base64 as_bytes raw =
    let text = trim raw in
    let bytes = as_bytes text in
    if eqb (length bytes) 64
    then from_hex (hex_decode key_size bytes)
    else from_base64 (base64 text)
