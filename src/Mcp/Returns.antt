-- ===== src/Mcp/Returns.antt =====
-- Resolving an account and answering as a tool (src/mcp/mod.rs) return, and leave the database's lock
-- free.
use uni_mail.Common.{String}
use uni_mail.Error.{Outcome, ok, err, panic, AppError}
use uni_mail.Exec.{Exec}
use uni_mail.Exec.Calm.{NoPanic}
use uni_mail.Exec.Returns.{Returns, returns_rules}
use uni_mail.Host.{Host}
use uni_mail.Storage.Models.{Account}
use uni_mail.Storage.Returns.{get-Returns, get_by_email-Returns}
use uni_mail.Api.Routes.{AppState}
use uni_mail.Mcp.{
  or_tool_error, as_tool, or_by_email, resolve_in, resolve_account, with_account, CallToolResult,
  ErrorData,
}

or_tool_error-Returns :
    {A B : Type 0} (r : Outcome AppError A) (f : A → Exec ErrorData (CallToolResult B))
    → NoPanic r
    → ((a : A) → Returns (f a))
    → Returns (or_tool_error r f)
unfolding or_tool_error
or_tool_error-Returns (ok a) f h k = k a
or_tool_error-Returns (err e) f h k = search returns_rules
or_tool_error-Returns (panic text) f h k = absurd h

pub as_tool-Returns : {A : Type 0} (m : Exec AppError A) → Returns m → Returns (as_tool m)
unfolding as_tool
as_tool-Returns m h = search (returns_rules, or_tool_error-Returns) depth 20

module _ (host : Host) (state : AppState) where
  or_by_email-Returns :
      (tenant key : String) (r : Outcome AppError Account)
      → NoPanic r
      → Returns (or_by_email host state tenant key r)
  unfolding or_by_email
  or_by_email-Returns tenant key (ok a) h = search returns_rules
  or_by_email-Returns tenant key (err e) h = get_by_email-Returns host tenant key
  or_by_email-Returns tenant key (panic text) h = absurd h

  pub resolve_in-Returns : (tenant key : String) → Returns (resolve_in host state tenant key)
  unfolding resolve_in
  resolve_in-Returns tenant key = search (returns_rules, get-Returns, or_by_email-Returns) depth 20

  pub with_account-Returns :
      {A : Type 0} (account : String) (call : Account → Exec AppError A)
      → ((a : Account) → Returns (call a))
      → Returns (with_account host state account call)
  unfolding with_account resolve_account
  with_account-Returns account call h =
      search (returns_rules, resolve_in-Returns, or_tool_error-Returns, as_tool-Returns, h) depth 20
