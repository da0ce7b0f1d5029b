-- ===== src/Provider/Graph/Message.antt =====
-- src/provider/graph.rs: Graph's messages, and what becomes of them.
use uni_mail.Error.{Outcome}
use uni_mail.Json.{Value}
use uni_mail.Common.{ℕ, String, Bool, Option, none, some, List, [], ◌∷◌}
use uni_mail.Provider.{Email, EmailAddress}

pub record GraphEmailAddress : Type 0 where
  pub name : Option String
  pub address : Option String

pub record GraphRecipient : Type 0 where
  pub email_address : Option GraphEmailAddress

pub record GraphBody : Type 0 where
  pub content : Option String

pub record GraphMessage : Type 0 where
  pub id : String
  pub subject : Option String
  pub from : Option GraphRecipient
  pub to_recipients : List GraphRecipient
  pub body_preview : Option String
  pub body : Option GraphBody
  pub received_date_time : Option String
  pub is_read : Bool

-- An address with its name, if it has an address.
abbrev pub named : Option String → Option String → Option EmailAddress
named name none = none
named name (some address) = some (record { name = name; address = address })

abbrev pub of_address : Option GraphEmailAddress → Option EmailAddress
of_address none = none
of_address (some a) = named a.name a.address

abbrev pub of_recipient : Option GraphRecipient → Option EmailAddress
of_recipient none = none
of_recipient (some r) = of_address r.email_address

abbrev pub content_of : Option GraphBody → Option String
content_of none = none
content_of (some b) = b.content

abbrev pub prepend {ℓ} : {A : Type ℓ} → Option A → List A → List A
prepend none rest = rest
prepend (some a) rest = a ∷ rest

-- The two `filter_map`s over the recipients.
unfoldable pub addresses_of : List GraphRecipient → List EmailAddress
addresses_of [] = []
addresses_of (r ∷ rest) = prepend (of_address r.email_address) (addresses_of rest)

-- `graph_message_to_email`, behind serde's reading
unfoldable pub to_email : GraphMessage → Email
unfolding addresses_of
to_email m = record {
  id = m.id;
  subject = m.subject;
  from = of_recipient m.from;
  to = addresses_of m.to_recipients;
  body_preview = m.body_preview;
  body = content_of m.body;
  received_at = m.received_date_time;
  is_read = m.is_read;
}

-- What serde reads of `/me`.
pub record Profile : Type 0 where
  pub mail : Option String
  pub user_principal_name : Option String
  pub display_name : Option String

-- What the source calls of other crates: how a status and a number print, the two ways in which it
-- adds to a URL, and how serde reads a message and a profile.
pub record GraphCodec : Type 0 where
  pub show_status : ℕ → String
  pub show_number : ℕ → String
  pub append_pair : String → String → String → String
  pub push_segment : String → String → Option String
  pub read_message : Value → Option GraphMessage
  pub read_profile : String → Outcome String Profile
