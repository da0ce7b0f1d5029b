-- ===== src/Api/Json.antt =====
-- The JSON texts of the REST API: what serde's `Serialize` makes of the models of
-- src/storage/models.rs and src/provider/models.rs, field by field, by their names and attributes.
pub mod Laws
use uni_mail.Common.{String, Bool, List, [], ◌∷◌, ◌++◌, Option, none, some}
use uni_mail.Json.{Value, Members, Elements}
use uni_mail.Storage.Models.{Account, AccountStatus, active, disconnected}
use uni_mail.Provider.{EmailAddress, Email, AccountSummary, UnifiedEmail}

-- The fields of a struct, with their names.
abbrev pub Fields : Type 0
Fields = List (String × Value)

unfoldable pub to_members : Fields → Members
to_members [] = Members.no_member
to_members ((name, value) ∷ rest) = Members.member name value (to_members rest)

unfoldable pub to_object : Fields → Value
unfolding to_members
to_object fields = Value.object (to_members fields)

unfoldable pub to_elements {ℓ} : {A : Type ℓ} → (A → Value) → List A → Elements
to_elements f [] = Elements.no_element
to_elements f (a ∷ rest) = Elements.element (f a) (to_elements f rest)

-- A `Vec`, and an `Option`
abbrev pub to_array {ℓ} : {A : Type ℓ} → (A → Value) → List A → Value
to_array f items = Value.array (to_elements f items)

abbrev pub or_null {ℓ} : {A : Type ℓ} → (A → Value) → Option A → Value
or_null f none = Value.null
or_null f (some a) = f a

abbrev pub text_or_null : Option String → Value
text_or_null = or_null Value.text

-- `EmailAddress`
unfoldable pub address_json : EmailAddress → Value
unfolding to_object
address_json a = to_object (("name", text_or_null a.name) ∷ ("address", Value.text a.address) ∷ [])

-- `Email`
abbrev pub email_fields : Email → Fields
email_fields e =
    ("id", Value.text e.id)
    ∷ ("subject", text_or_null e.subject)
    ∷ ("from", or_null address_json e.from)
    ∷ ("to", to_array address_json e.to)
    ∷ ("body_preview", text_or_null e.body_preview)
    ∷ ("body", text_or_null e.body)
    ∷ ("received_at", text_or_null e.received_at)
    ∷ ("is_read", Value.flag e.is_read)
    ∷ []

unfoldable pub email_json : Email → Value
unfolding to_object address_json
email_json e = to_object (email_fields e)

-- `AccountSummary`
unfoldable pub summary_json : AccountSummary → Value
unfolding to_object
summary_json s = to_object (("id", Value.text s.id) ∷ ("email", Value.text s.email) ∷ [])

-- `UnifiedEmail`, whose `email` is flattened
unfoldable pub unified_json : UnifiedEmail → Value
unfolding to_object address_json summary_json
unified_json u = to_object (email_fields u.email ++ (("account", summary_json u.account) ∷ []))

-- `AccountStatus`, renamed to lower case
unfoldable pub status_json : AccountStatus → Value
status_json active = Value.text "active"
status_json disconnected = Value.text "disconnected"

-- `Account`
unfoldable pub account_json : Account → Value
unfolding to_object status_json
account_json a = to_object (
    ("id", Value.text a.id)
    ∷ ("tenant_id", Value.text a.tenant_id)
    ∷ ("email_address", Value.text a.email_address)
    ∷ ("display_name", text_or_null a.display_name)
    ∷ ("provider", Value.text a.provider)
    ∷ ("status", status_json a.status)
    ∷ ("created_at", Value.text a.created_at)
    ∷ ("updated_at", Value.text a.updated_at)
    ∷ [])
