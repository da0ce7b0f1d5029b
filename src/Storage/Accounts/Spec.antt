-- ===== src/Storage/Accounts/Spec.antt =====
-- The account store of src/storage/accounts.rs as a directory of accounts: what it promises. The
-- oldest account stands first.
use Prim.Native.String
use uni_mail.Common.{
  push, String, Bool, List, [], ◌∷◌, Option, none, some, ◌==◌, ◌&&◌, ◌||◌, not, select, find, any,
  if◌then◌else◌,
}
use uni_mail.Error.{Outcome, ok, err, AppError, not_found, invalid_request}
use uni_mail.Storage.Models.{Account}
use uni_mail.Storage.Accounts.Store.{Call, Answer, done, found, listed, removed}

-- What SQLite does with texts and with ORDER BY.
pub record Sql : Type 0 where
  pub lower : String → String
  pub latest_first : List Account → List Account

abbrev pub is_named : String → String → Account → Bool
is_named tenant id a = (a.tenant_id == tenant) && (a.id == id)

abbrev pub is_mailed : Sql → String → String → Account → Bool
is_mailed sql tenant email a =
    (a.tenant_id == tenant) && (sql.lower a.email_address == sql.lower email)

-- The two accounts cannot both be there.
abbrev pub clashes : Account → Account → Bool
clashes a b =
    (b.id == a.id) || ((b.tenant_id == a.tenant_id) && (b.email_address == a.email_address))

abbrev missing : String → AppError
missing key = not_found (String.◌++◌ "account " (String.◌++◌ key " not found"))

abbrev taken : Account → AppError
taken a =
    invalid_request
      (String.◌++◌ "account " (String.◌++◌ a.email_address " is already connected for this tenant"))

abbrev pub answer_of : String → Option Account → Outcome AppError Answer
answer_of key none = err (missing key)
answer_of key (some a) = ok (found a)

-- The accounts that pass a test, changed.
unfoldable pub change : (Account → Bool) → (Account → Account) → List Account → List Account
change p f [] = []
change p f (a ∷ rest) = (if p a then f a else a) ∷ change p f rest

-- What a call at a time answers, and the directory behind it.
unfoldable pub spec : Sql → String → Call → List Account → Outcome AppError Answer × List Account
unfolding change
spec sql time (Call.create a) d =
    if any (clashes a) d then (err (taken a), d) else (ok done, push d a)
spec sql time (Call.list tenant) d =
    (ok (listed (sql.latest_first (select (λ a. a.tenant_id == tenant) d))), d)
spec sql time (Call.get tenant id) d = (answer_of id (find (is_named tenant id) d), d)
spec sql time (Call.get_by_email tenant email) d =
    (answer_of email (find (is_mailed sql tenant email) d), d)
spec sql time (Call.set_status tenant id status) d =
    if any (is_named tenant id) d
    then (
      ok done,
      change (is_named tenant id) (λ a. record a { status = status; updated_at = time }) d,
    )
    else (err (missing id), d)
spec sql time (Call.delete tenant id) d =
    (ok (removed (any (is_named tenant id) d)), select (λ a. not (is_named tenant id a)) d)
spec sql time Call.list_all d = (ok (listed (sql.latest_first d)), d)
spec sql time (Call.touch id) d =
    (ok done, change (λ a. a.id == id) (λ a. record a { updated_at = time }) d)

-- Calls at their times.
unfoldable pub specified :
    Sql → List (String × Call) → List Account → List (Outcome AppError Answer)
unfolding spec
specified sql [] d = []
specified sql ((time, c) ∷ calls) d = let (r, d') = spec sql time c d in r ∷ specified sql calls d'
