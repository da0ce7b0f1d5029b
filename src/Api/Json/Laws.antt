-- ===== src/Api/Json/Laws.antt =====
-- A client that reads the JSON of the REST API by the names of the fields.
use uni_mail.Common.{
  ◌≡◌, refl, String, Bool, ◌==◌, if◌then◌else◌, List, [], ◌∷◌, ◌++◌, Option, none, some,
}
use uni_mail.Json
use uni_mail.Json.{Value, Members, Elements}
use uni_mail.Storage.Models.{Account, AccountStatus, active, disconnected}
use uni_mail.Provider.{EmailAddress, Email, AccountSummary, UnifiedEmail}
use uni_mail.Provider.Graph.{and_then}
use uni_mail.Api.Json.{
  Fields, to_members, to_object, to_elements, to_array, or_null, text_or_null, address_json,
  email_fields, email_json, summary_json, unified_json, status_json, account_json,
}

-- A value that may be null.
unfoldable pub read_nullable : {A : Type 0} → (Value → Option A) → Value → Option (Option A)
read_nullable read Value.null = some none
read_nullable read v = and_then (read v) (λ a. some (some a))

unfoldable pub read_flag : Value → Option Bool
read_flag (Value.flag b) = some b
read_flag _ = none

unfoldable pub read_elements : {A : Type 0} → (Value → Option A) → Elements → Option (List A)
read_elements read Elements.no_element = some []
read_elements read (Elements.element v rest) =
    let others = read_elements read rest in
    and_then (read v) (λ a. and_then others (λ more. some (a ∷ more)))

unfoldable pub read_array : {A : Type 0} → (Value → Option A) → Value → Option (List A)
read_array read (Value.array items) = read_elements read items
read_array read _ = none

-- The value of a field, read.
abbrev pub field : {A : Type 0} → String → (Value → Option A) → Value → Option A
field name read v = and_then (Json.get v name) read

unfoldable pub read_address : Value → Option EmailAddress
unfolding read_nullable
read_address v = and_then (field "name" (read_nullable Json.as_str) v) (λ name.
    and_then (field "address" Json.as_str v)
      (λ address. some (record { name = name; address = address })))

unfoldable pub read_email : Value → Option Email
unfolding read_nullable read_flag read_array read_address
read_email v = and_then (field "id" Json.as_str v) (λ id.
    and_then (field "subject" (read_nullable Json.as_str) v) (λ subject.
      and_then (field "from" (read_nullable read_address) v) (λ from.
        and_then (field "to" (read_array read_address) v) (λ to.
          and_then (field "body_preview" (read_nullable Json.as_str) v) (λ body_preview.
            and_then (field "body" (read_nullable Json.as_str) v) (λ body.
              and_then (field "received_at" (read_nullable Json.as_str) v) (λ received_at.
                and_then (field "is_read" read_flag v) (λ is_read. some (record {
                  id = id;
                  subject = subject;
                  from = from;
                  to = to;
                  body_preview = body_preview;
                  body = body;
                  received_at = received_at;
                  is_read = is_read;
                })))))))))

unfoldable pub read_summary : Value → Option AccountSummary
read_summary v = and_then (field "id" Json.as_str v) (λ id.
    and_then (field "email" Json.as_str v) (λ email. some (record { id = id; email = email })))

unfoldable pub read_unified : Value → Option UnifiedEmail
unfolding read_email read_summary
read_unified v = and_then (read_email v) (λ email.
    and_then (field "account" read_summary v)
      (λ account. some (record { email = email; account = account })))

-- A list of what can be read back can be read back.
pub read_array-to_array :
    {A : Type 0} (f : A → Value) (read : Value → Option A)
    → ((a : A) → read (f a) ≡ some a)
    → (items : List A) → read_array read (to_array f items) ≡ some items
unfolding read_array read_elements to_elements
read_array-to_array {A} f read back = each
  where
    each : (items : List A) → read_elements read (to_elements f items) ≡ some items
    each [] = refl
    each (a ∷ rest) = rw (back a, each rest) refl

read_text : (o : Option String) → read_nullable Json.as_str (text_or_null o) ≡ some o
unfolding read_nullable Json.as_str
read_text none = refl
read_text (some s) = refl

read_address_lem : (a : EmailAddress) → read_address (address_json a) ≡ some a
unfolding read_address address_json to_object to_members Json.get Json.find_member Json.as_str
read_address_lem a = rw (read_text a.name) refl

read_from : (o : Option EmailAddress) → read_nullable read_address (or_null address_json o) ≡ some o
unfolding read_nullable address_json to_object
read_from none = refl
read_from (some a) = rw (read_address_lem a) refl

-- Fields behind those of an email do not hide them.
read_email_flat :
    (e : Email) (rest : Fields) → read_email (to_object (email_fields e ++ rest)) ≡ some e
unfolding read_email read_array read_flag to_object to_members Json.get Json.find_member Json.as_str
read_email_flat e rest =
    rw
      (
        read_text e.subject,
        read_from e.from,
        read_array-to_array address_json read_address read_address_lem e.to,
        read_text e.body_preview,
        read_text e.body,
        read_text e.received_at,
      )
      refl

read_summary_lem : (s : AccountSummary) → read_summary (summary_json s) ≡ some s
unfolding read_summary summary_json to_object to_members Json.get Json.find_member Json.as_str
read_summary_lem s = refl

-- The field behind them.
account_field :
    (e : Email) (s : AccountSummary)
    → field "account" read_summary
        (to_object (email_fields e ++ (("account", summary_json s) ∷ [])))
      ≡ some s
unfolding to_object to_members Json.get Json.find_member
account_field e s = read_summary_lem s

-- What the API answers for a message of the unified inbox, with the fields of the email in line, is
-- read back by the names of the fields as that message and its account: no field of the email is lost
-- or hidden, whichever of them are null and however many recipients there are.
pub read_unified-unified_json : (u : UnifiedEmail) → read_unified (unified_json u) ≡ some u
unfolding read_unified unified_json
read_unified-unified_json u =
    rw
      (
        read_email_flat u.email (("account", summary_json u.account) ∷ []),
        account_field u.email u.account,
      )
      refl

unfoldable pub read_status : Value → Option AccountStatus
read_status (Value.text s) =
    if s == "active" then some active else if s == "disconnected" then some disconnected else none
read_status _ = none

unfoldable pub read_account : Value → Option Account
unfolding read_nullable read_status
read_account v = and_then (field "id" Json.as_str v) (λ id.
    and_then (field "tenant_id" Json.as_str v) (λ tenant_id.
      and_then (field "email_address" Json.as_str v) (λ email_address.
        and_then (field "display_name" (read_nullable Json.as_str) v) (λ display_name.
          and_then (field "provider" Json.as_str v) (λ provider.
            and_then (field "status" read_status v) (λ status.
              and_then (field "created_at" Json.as_str v) (λ created_at.
                and_then (field "updated_at" Json.as_str v) (λ updated_at. some (record {
                  id = id;
                  tenant_id = tenant_id;
                  email_address = email_address;
                  display_name = display_name;
                  provider = provider;
                  status = status;
                  created_at = created_at;
                  updated_at = updated_at;
                })))))))))

read_status_lem : (s : AccountStatus) → read_status (status_json s) ≡ some s
unfolding read_status status_json
read_status_lem active = refl
read_status_lem disconnected = refl

pub read_account-account_json : (a : Account) → read_account (account_json a) ≡ some a
unfolding read_account account_json to_object to_members Json.get Json.find_member Json.as_str
read_account-account_json a = rw (read_text a.display_name, read_status_lem a.status) refl

pub read_email-email_json : (e : Email) → read_email (email_json e) ≡ some e
unfolding email_json
read_email-email_json e = read_email_flat e []
