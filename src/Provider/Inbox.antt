-- ===== src/Provider/Inbox.antt =====
-- src/provider/mod.rs: the unified inbox. The source fetches concurrently and joins the answers in
-- the order of the accounts; here they are fetched in that order.
pub mod Laws
use Prim.Native.Nat.{Ordering, compare}
use uni_mail.Common.{ℕ, String, List, [], ◌∷◌, ◌++◌, map, Option, none, some, take}
use uni_mail.Common.Sort.{sort_by}
use uni_mail.Error.{Outcome, ok, AppError}
use uni_mail.Exec.{Exec, ◌>>=◌, pure, attempt}
use uni_mail.Host.{Host}
use uni_mail.Storage.Models.{Account}
use uni_mail.Provider.{Email, AccountSummary, UnifiedEmail, EmailProvider}

-- `parse_time`
unfoldable pub parse_time : Host → Option String → Option ℕ
parse_time host none = none
parse_time host (some s) = host.parse_from_rfc3339 s

-- The order of two times of receipt, either of which may be missing.
abbrev pub compare_times : Option ℕ → Option ℕ → Ordering
compare_times (some a) (some b) = compare b a
compare_times (some a) none = Ordering.lt
compare_times none (some b) = Ordering.gt
compare_times none none = Ordering.eq

-- `compare_received_desc`
unfoldable pub compare_received_desc : Host → Option String → Option String → Ordering
unfolding parse_time
compare_received_desc host a b = compare_times (parse_time host a) (parse_time host b)

unfoldable pub by_date : Host → UnifiedEmail → UnifiedEmail → Ordering
by_date host a b = compare_received_desc host a.email.received_at b.email.received_at

-- `unwrap_or_else(|_| Vec::new())`
abbrev pub or_empty : Outcome AppError (List Email) → List Email
or_empty (ok messages) = messages
or_empty _ = []

abbrev pub with_account : Account → Email → UnifiedEmail
with_account a message = record {
  email = message;
  account = record { id = a.id; email = a.email_address };
}

-- The fetches, joined and flattened.
unfoldable pub fetch_all : EmailProvider → ℕ → List Account → Exec AppError (List UnifiedEmail)
fetch_all provider limit [] = pure []
fetch_all provider limit (a ∷ rest) = do
  answer ← attempt (provider.list_messages a limit none)
  others ← fetch_all provider limit rest
  pure (map (with_account a) (or_empty answer) ++ others)

-- `aggregate_unified_inbox`
unfoldable pub aggregate_unified_inbox :
    Host → EmailProvider → List Account → ℕ → Exec AppError (List UnifiedEmail)
aggregate_unified_inbox host provider accounts limit = do
  all ← fetch_all provider limit accounts
  pure (take limit (sort_by (by_date host) all))
