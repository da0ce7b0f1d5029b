-- ===== src/Tests/Source/Inbox.antt =====
-- The unit tests of src/provider/mod.rs, on a backend that answers the same for every account.
use Prim.Native.String.{◌++◌}
use uni_mail.Common.{
  refl, Bool, true, false, ◌&&◌, ◌||◌, List, [], ◌∷◌, Option, none, some, String, ◌==◌, eqb, length,
}
use uni_mail.Common.Sort.{sort_by, insert_by}
use uni_mail.Error.{AppError}
use uni_mail.Exec.{Exec, ◌>>=◌, ◌>>◌, pure}
use uni_mail.Host.{Host}
use uni_mail.Storage.Models.{Account, active}
use uni_mail.Provider.{Email, UnifiedEmail, EmailProvider}
use uni_mail.Provider.Inbox.{fetch_all, aggregate_unified_inbox, by_date, compare_received_desc}
use uni_mail.Tests.Source.{assert, unwrap, Passes, lab}

abbrev email : String → Option String → Email
email id subject = record {
  id = id;
  subject = subject;
  from = none;
  to = [];
  body_preview = none;
  body = none;
  received_at = some "2024-01-01T00:00:00Z";
  is_read = false;
}

abbrev fake_provider : EmailProvider
fake_provider = record {
  list_messages = λ account limit query.
      pure (email "m2" (some (account.email_address ++ "_msg")) ∷ email "m1" none ∷ []);
  get_message = λ account id. pure (email "x" none);
  send_message = λ account to subject body. pure tt;
}

abbrev account : String → String → Account
account id address = record {
  id = id;
  tenant_id = "t";
  email_address = address;
  display_name = none;
  provider = "microsoft";
  status = active;
  created_at = "";
  updated_at = "";
}

abbrev all_owned : List UnifiedEmail → Bool
all_owned [] = true
all_owned (m ∷ rest) = (m.account.id == "a1" || m.account.id == "a2") && all_owned rest

abbrev unified_inbox_flattens_and_limits : Host → Exec AppError (Unit {0})
unified_inbox_flattens_and_limits host = do
  let accounts = account "a1" "one@example.com" ∷ account "a2" "two@example.com" ∷ []
  inbox ← unwrap (aggregate_unified_inbox host fake_provider accounts 3)
  assert (eqb (length inbox) 3)
  assert (all_owned inbox)

abbrev unified_inbox_sorts_by_date_desc : Host → Exec AppError (Unit {0})
unified_inbox_sorts_by_date_desc host = do
  let accounts = account "a1" "one@example.com" ∷ []
  inbox ← unwrap (aggregate_unified_inbox host fake_provider accounts 10)
  assert (eqb (length inbox) 2)

unified_inbox_flattens_and_limits-Passes : Passes (unified_inbox_flattens_and_limits lab)
unfolding fetch_all aggregate_unified_inbox by_date compare_received_desc sort_by insert_by
unified_inbox_flattens_and_limits-Passes = refl

unified_inbox_sorts_by_date_desc-Passes : Passes (unified_inbox_sorts_by_date_desc lab)
unfolding fetch_all aggregate_unified_inbox by_date compare_received_desc sort_by insert_by
unified_inbox_sorts_by_date_desc-Passes = refl
