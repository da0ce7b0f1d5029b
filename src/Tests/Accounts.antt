-- ===== src/Tests/Accounts.antt =====
-- The account store of src/storage/accounts.rs on the machine.
use uni_mail.Common.{none, List, [], ◌∷◌}
use uni_mail.Storage.Models.{Account, active, disconnected}
use uni_mail.Storage.Accounts.Store.{Call}
use uni_mail.Tests.Machine.{ada}

abbrev bob : Account
bob = record {
  id = "a2";
  tenant_id = "t2";
  email_address = "bob@example.org";
  display_name = none;
  provider = "microsoft";
  status = disconnected;
  created_at = "";
  updated_at = "";
}

-- An account is refused twice, for its id and for its email, and one is removed by its tenant only.
abbrev account_calls : List Call
account_calls =
    Call.create ada
    ∷ Call.create (record ada { id = "a3" })
    ∷ Call.get "t2" "a1"
    ∷ Call.get_by_email "t1" "ada@example.org"
    ∷ Call.set_status "t2" "a2" active
    ∷ Call.delete "t1" "a2"
    ∷ Call.delete "t2" "a2"
    ∷ Call.touch "a1"
    ∷ Call.list_all
    ∷ []
