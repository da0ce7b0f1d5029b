-- ===== src/Config/Keys.antt =====
-- The API keys that `parse_api_keys` of src/config.rs reads.
use uni_mail.Common.{
  ◌≡◌, refl, String, List, [], ◌∷◌, Option, none, some, ◌==◌, eq_iff, Bool-cases, inl, inr,
  if◌then◌else◌, arith,
}
use uni_mail.Text.{trim, split, split_once}
use uni_mail.Config.{KeyMap, map_get, map_insert, insert_entry, insert_parts, parse_api_keys}

-- What an entry says: its key, and its tenant behind the first `=`, if there is one.
abbrev pub meaning : String → Option (String × String) → String × String
meaning part none = (part, "")
meaning part (some (key, tenant)) = (trim key, trim tenant)

-- The entries of a comma-separated list, without the blank ones.
abbrev pub entries : List String → List (String × String)
entries [] = []
entries (raw ∷ rest) =
    if trim raw == ""
    then entries rest
    else meaning (trim raw) (split_once b'=' (trim raw)) ∷ entries rest

-- The tenant of the last entry for a key, or what was known before.
abbrev pub last_tenant : String → List (String × String) → Option String → Option String
last_tenant key [] known = known
last_tenant key ((k, tenant) ∷ rest) known =
    last_tenant key rest (if k == key then some tenant else known)

map_get-map_insert :
    (j k v : String) (m : KeyMap)
    → map_get k (map_insert j v m) ≡ (if j == k then some v else map_get k m)
unfolding map_get map_insert
map_get-map_insert j k v [] = ground (arith, eq_iff j k)
map_get-map_insert j k v ((i, u) ∷ m) =
    ground (arith, eq_iff i j, eq_iff i k, eq_iff j k, map_get-map_insert j k v m)

map_get-insert_entry :
    (key part : String) (o : Option (String × String)) (m : KeyMap)
    → map_get key (insert_entry part o m)
      ≡ (if (meaning part o).0 == key then some (meaning part o).1 else map_get key m)
map_get-insert_entry key part none m = map_get-map_insert part key "" m
map_get-insert_entry key part (some (k, tenant)) m = map_get-map_insert (trim k) key (trim tenant) m

map_get-insert_parts :
    (key : String) (parts : List String) (m : KeyMap)
    → map_get key (insert_parts parts m) ≡ last_tenant key (entries parts) (map_get key m)
unfolding insert_parts
map_get-insert_parts key [] m = refl
map_get-insert_parts key (raw ∷ rest) m = elim (Bool-cases (trim raw == "")) [
  | inl blank ↦ rw blank (map_get-insert_parts key rest m)
  | inr entry ↦ rw (entry, map_get-insert_parts key rest, map_get-insert_entry key (trim raw)) refl
]

-- Looking up a key in the map that is read from API_KEYS gives the tenant of the last entry for that
-- key, and nothing where no entry is for it: an entry is what stands between two commas, blank ones
-- skipped; its key and tenant are what stands before and behind its first `=`, both trimmed, and without
-- a `=` the whole entry is the key of the empty tenant.
pub map_get-parse_api_keys :
    (raw key : String)
    → map_get key (parse_api_keys raw) ≡ last_tenant key (entries (split b',' raw)) none
unfolding parse_api_keys map_get
map_get-parse_api_keys raw key = map_get-insert_parts key (split b',' raw) []
