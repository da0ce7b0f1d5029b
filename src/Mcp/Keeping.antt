-- ===== src/Mcp/Keeping.antt =====
-- Invariants of the database under resolving an account and answering as a tool (src/mcp/mod.rs).
use uni_mail.Common.{String}
use uni_mail.Error.{Outcome, ok, err, panic, AppError}
use uni_mail.Exec.{Database, Exec}
use uni_mail.Exec.Keeps.{Keeps, keeps_rules}
use uni_mail.Host.{Host}
use uni_mail.Storage.Models.{Account}
use uni_mail.Storage.Reads.{get-Keeps, get_by_email-Keeps}
use uni_mail.Api.Routes.{AppState}
use uni_mail.Mcp.{or_tool_error, as_tool, or_by_email, resolve_in, CallToolResult, ErrorData}

module _ {P : Database → Type 0} (host : Host) (state : AppState) where
  or_by_email-Keeps :
      (tenant key : String) (r : Outcome AppError Account)
      → Keeps P (or_by_email host state tenant key r)
  unfolding or_by_email
  or_by_email-Keeps tenant key (ok a) = search keeps_rules
  or_by_email-Keeps tenant key (err e) = get_by_email-Keeps host tenant key
  or_by_email-Keeps tenant key (panic text) = search keeps_rules

  pub resolve_in-Keeps : (tenant key : String) → Keeps P (resolve_in host state tenant key)
  unfolding resolve_in
  resolve_in-Keeps tenant key = search (keeps_rules, get-Keeps, or_by_email-Keeps) depth 20

module _ {P : Database → Type 0} where
  pub or_tool_error-Keeps :
      {A B : Type 0} (r : Outcome AppError A) (f : A → Exec ErrorData (CallToolResult B))
      → ((a : A) → Keeps P (f a))
      → Keeps P (or_tool_error r f)
  unfolding or_tool_error
  or_tool_error-Keeps (ok a) f h = h a
  or_tool_error-Keeps (err e) f h = search keeps_rules
  or_tool_error-Keeps (panic text) f h = search keeps_rules

  pub as_tool-Keeps : {A : Type 0} (m : Exec AppError A) → Keeps P m → Keeps P (as_tool m)
  unfolding as_tool
  as_tool-Keeps m h = search (keeps_rules, or_tool_error-Keeps) depth 20
