-- ===== src/Json.antt =====
-- `serde_json::Value`, which the program reads and builds. Numbers are left out: it uses none.
use uni_mail.Common.{String, Bool, Option, none, some, ◌==◌, if◌then◌else◌}

mutual
  pub data Value : Type 0 where
    object : Members → Value
    array : Elements → Value
    text : String → Value
    flag : Bool → Value
    null : Value

  -- The members of an object, with their keys.
  pub data Members : Type 0 where
    no_member : Members
    member : String → Value → Members → Members

  pub data Elements : Type 0 where
    no_element : Elements
    element : Value → Elements → Elements

-- The member of an object under a key.
unfoldable pub find_member : String → Members → Option Value
find_member key no_member = none
find_member key (member j v more) = if j == key then some v else find_member key more

-- `Value::get`: `none` on what is no object.
unfoldable pub get : Value → String → Option Value
unfolding find_member
get (object members) key = find_member key members
get _ key = none

-- `Value::as_str`
unfoldable pub as_str : Value → Option String
as_str (text s) = some s
as_str _ = none
