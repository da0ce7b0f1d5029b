-- ===== src/Provider.antt =====
-- src/provider/models.rs and the trait of src/provider/mod.rs: what every mail backend offers.
pub mod Inbox
pub mod Graph
use uni_mail.Common.{ℕ, String, Bool, Option, List}
use uni_mail.Error.{AppError}
use uni_mail.Exec.{Exec}
use uni_mail.Storage.Models.{Account}

pub record EmailAddress : Type 0 where
  pub name : Option String
  pub address : String

pub record Email : Type 0 where
  pub id : String
  pub subject : Option String
  pub from : Option EmailAddress
  pub to : List EmailAddress
  pub body_preview : Option String
  pub body : Option String
  pub received_at : Option String
  pub is_read : Bool

pub record AccountSummary : Type 0 where
  pub id : String
  pub email : String

pub record UnifiedEmail : Type 0 where
  pub email : Email
  pub account : AccountSummary

pub record SendMailRequest : Type 0 where
  pub to : String
  pub subject : String
  pub body : String

-- The trait `EmailProvider`
pub record EmailProvider : Type 0 where
  pub list_messages : Account → ℕ → Option String → Exec AppError (List Email)
  pub get_message : Account → String → Exec AppError Email
  pub send_message : Account → String → String → String → Exec AppError (Unit {0})
