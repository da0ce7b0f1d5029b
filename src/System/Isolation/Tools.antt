-- ===== src/System/Isolation/Tools.antt =====
-- The tools of src/mcp/mod.rs and the removal of an account in src/cli/mod.rs, for one tenant, leave
-- the other tenants alone.
use uni_mail.Common.{◌≡◌, ◌∙◌, refl, ℕ, String, All-weaken, Option}
use uni_mail.Error.{Outcome, ok, err, panic, AppError}
use uni_mail.Exec.{World, Exec, ◌>>=◌, on_error}
use uni_mail.Exec.Keeps.{
  Keeps, KeepsAt, KeepsAt-bind, Keeps-KeepsAt, Keeps-pure, Keeps-bind, keeps_rules, Keeps-on_error,
  KeepsAt-attempt,
}
use uni_mail.Host.{Host}
use uni_mail.Storage.Models.{Account}
use uni_mail.Storage.Accounts
use uni_mail.Storage.Accounts.{conflicts}
use uni_mail.Storage.Consistency.{IsDistinct}
use uni_mail.Storage.Isolation.{
  SameElsewhere, SameElsewhere-refl, IsForeignTo, accounts_delete-SameElsewhere,
}
use uni_mail.Storage.Reads.{list-Keeps}
use uni_mail.Storage.Isolation.Owners.{HasOrder, list-IsForeignTo, own_id}
use uni_mail.Provider.Graph.Consistency.{aggregate-Keeps}
use uni_mail.Api.Routes.{AppState}
use uni_mail.Exec.Inversion.{map_err-eq-ok, attempt-eq-ok}
use uni_mail.Provider.Inbox.{aggregate_unified_inbox}
use uni_mail.Mcp.{
  CallToolResult, ErrorData, as_tool, with_account, resolve_in, resolve_account, or_tool_error,
  to_protocol_error,
}
use uni_mail.Mcp
use uni_mail.Mcp.Keeping.{resolve_in-Keeps, as_tool-Keeps}
use uni_mail.Mcp.Laws.{resolve_in_sound, resolve_in_row}
use uni_mail.Storage.Accounts.Removal.{any_of-IsInTable}
use uni_mail.Cli
use uni_mail.System.{Tool, call_tool}
use uni_mail.System.Isolation.Calls.{IsIsolating}

module _ (host : Host) (order : HasOrder host) (state : AppState)
    (calls : IsIsolating state.provider) (tenant : String) (w : World)
    (keys : IsDistinct conflicts w.accounts) where
  resolve_in-IsForeignTo :
      (key : String) (a : Account)
      → (resolve_in host state tenant key w).0 ≡ ok a
      → IsForeignTo tenant w.db a.id
  resolve_in-IsForeignTo key a resolved =
      let owner = (resolve_in_sound host state tenant key a w resolved).0 in
      own_id tenant a.id w.accounts keys (
        rw (← owner)
          (any_of-IsInTable a w.accounts (resolve_in_row host state tenant key a w resolved).0))

  resolved_then :
      {A : Type 0} (key : String) (f : Account → Exec AppError A)
      → ((a : Account) → IsForeignTo tenant w.db a.id → Keeps (SameElsewhere tenant w.db) (f a))
      → KeepsAt (SameElsewhere tenant w.db) w (resolve_in host state tenant key >>= f)
  resolved_then key f h =
      KeepsAt-bind w _ f
        (Keeps-KeepsAt w _ (SameElsewhere-refl tenant w.db)
          (resolve_in-Keeps host state tenant key))
        (λ a found. h a (resolve_in-IsForeignTo key a found))

  pub remove_account_isolates :
      (account : String) (given : Option String)
      → Cli.tenant_or_default state given ≡ tenant
      → KeepsAt (SameElsewhere tenant w.db) w (Cli.remove_account host state account given)
  unfolding Cli.remove_account
  remove_account_isolates account given same = rw same (
      resolved_then account _ (λ a foreign.
        Keeps-bind _ _ (accounts_delete-SameElsewhere host tenant a.id w.db foreign)
          (λ _. Keeps-pure _)))

  found_tool :
      {A B : Type 0} (r : Outcome AppError A) (f : A → Exec ErrorData (CallToolResult B))
      → ((a : A) → r ≡ ok a → Keeps (SameElsewhere tenant w.db) (f a))
      → Keeps (SameElsewhere tenant w.db) (or_tool_error r f)
  unfolding or_tool_error
  found_tool (ok a) f h = h a refl
  found_tool (err e) f h = search keeps_rules
  found_tool (panic text) f h = search keeps_rules

  -- A tool that works on one account, on the tenant of the tools.
  account_tool :
      {A : Type 0} (key : String) (call : Account → Exec AppError A)
      → Mcp.tenant host state ≡ tenant
      → ((a : Account) → IsForeignTo tenant w.db a.id → Keeps (SameElsewhere tenant w.db) (call a))
      → KeepsAt (SameElsewhere tenant w.db) w (with_account host state key call)
  unfolding with_account resolve_account
  account_tool key call same h = rw same (
      KeepsAt-bind w _ _
        (KeepsAt-attempt w _ (
          Keeps-KeepsAt w _ (SameElsewhere-refl tenant w.db)
            (resolve_in-Keeps host state tenant key)))
        (λ r resolved. found_tool r _ (λ a is_ok. as_tool-Keeps _ (
          h a (
            resolve_in-IsForeignTo key a
              (attempt-eq-ok (resolve_in host state tenant key) w resolved ∙ is_ok))))))

  inbox_tool :
      (limit : ℕ)
      → KeepsAt (SameElsewhere tenant w.db) w (
          on_error to_protocol_error (Accounts.list host tenant) >>= λ accounts.
          as_tool (aggregate_unified_inbox host state.provider accounts limit))
  inbox_tool limit =
      KeepsAt-bind w _ _
        (Keeps-KeepsAt w _ (SameElsewhere-refl tenant w.db)
          (Keeps-on_error _ _ (list-Keeps host tenant)))
        (λ accounts listed. as_tool-Keeps _ (
          aggregate-Keeps host state.provider accounts limit (
            All-weaken _ _ (calls tenant w.db) accounts (
              list-IsForeignTo host tenant w keys order accounts
                (map_err-eq-ok to_protocol_error _ listed)))))

  pub call_tool_isolates :
      (t : Tool)
      → Mcp.tenant host state ≡ tenant
      → SameElsewhere tenant w.db (call_tool host state t w).db
  unfolding call_tool Mcp.list_accounts Mcp.list_emails Mcp.search_emails Mcp.read_email
      Mcp.send_email Mcp.unified_inbox
  call_tool_isolates Tool.list_accounts same =
      let h : Keeps (SameElsewhere tenant w.db) (Mcp.list_accounts host state) =
        search (keeps_rules, list-Keeps) depth 20 in
      h.at w (SameElsewhere-refl tenant w.db)
  call_tool_isolates (Tool.list_emails key limit) same =
      (account_tool key _ same (λ a foreign. (calls tenant w.db a foreign).lists _ _)).at
  call_tool_isolates (Tool.search_emails key query) same =
      (account_tool key _ same (λ a foreign. (calls tenant w.db a foreign).lists _ _)).at
  call_tool_isolates (Tool.read_email key id) same =
      (account_tool key _ same (λ a foreign. (calls tenant w.db a foreign).gets id)).at
  call_tool_isolates (Tool.send_email key to subject body) same =
      (account_tool key _ same
        (λ a foreign. (calls tenant w.db a foreign).sends to subject body)).at
  call_tool_isolates (Tool.unified_inbox limit) same =
      rw same (inbox_tool (Mcp.inbox_limit limit)).at
