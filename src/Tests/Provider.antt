-- ===== src/Tests/Provider.antt =====
-- The properties of src/provider on the machine.
use uni_mail.Common.{
  ◌≡◌, refl, none, some, List, [], ◌∷◌, length, take, select, min, All, String, true, false, Bool,
  any, find, ◌⊎◌, ◌≤◌,
}
use uni_mail.Common.Sort.{sort_by}
use uni_mail.Error.{ok, AppError}
use uni_mail.Exec.{Exec, pure, fail}
use uni_mail.Exec.Calm.{IsCalm, step-IsCalm}
use uni_mail.Storage.Models.{Account, is_disconnected, disconnected}
use uni_mail.Provider.{Email, UnifiedEmail, EmailProvider}
use uni_mail.Provider.Inbox.{by_date, aggregate_unified_inbox, with_account}
use uni_mail.Provider.Inbox.Laws.{
  IsNewestFirst, HasCalmListing, all_messages, IsOwned, aggregate_lem, aggregate-IsOwned,
}
use uni_mail.Exec.{lock}
use uni_mail.Host.{Response, get_method}
use uni_mail.Storage.Crypto.{encrypt, decrypt}
use uni_mail.Storage.Tokens
use uni_mail.Storage.Tokens.{put_row}
use uni_mail.Storage.Accounts
use uni_mail.Auth.Oauth
use uni_mail.Auth.Token.{
  is_fresh, cached_or_refreshed, account_lock, bump_last_used, refreshed_token, should_write,
  to_stored, write_last_used, get_access_token, refresh_account, join,
}
use uni_mail.Provider.{SendMailRequest}
use uni_mail.Provider.Graph.{MicrosoftGraph, send, send_authorized, retry_unauthorized}
use uni_mail.Provider.Graph.Message.{GraphCodec}
use uni_mail.Provider.Graph.Retry.{IsFirst, IsRetried, send_authorized_cases}
use uni_mail.Api.Routes.{AppState, unified_inbox, page_limit}
use uni_mail.Api.Routes.Laws.{unified_inbox_bound}
use uni_mail.Tests.Api.{settings}
use uni_mail.Tests.Machine.{machine, manager, start, connected, ada}

abbrev message : String → String → Email
message id time = record {
  id = id;
  subject = none;
  from = none;
  to = [];
  body_preview = none;
  body = none;
  received_at = some time;
  is_read = false;
}

abbrev answer : Bool → Exec AppError (List Email)
answer true = fail (AppError.token_expired "account is not connected (no token stored)")
answer false = pure (message "m1" "1" ∷ message "m2" "11" ∷ [])

-- A backend on which a disconnected account has no mail, and any other two messages.
abbrev backend : EmailProvider
backend = record {
  list_messages = λ a limit query. answer (is_disconnected a.status);
  get_message = λ a id. pure (message id "1");
  send_message = λ a to subject body. pure tt;
}

answer-IsCalm : (gone : Bool) (a : Account) → is_disconnected a.status ≡ gone → IsCalm (answer gone)
answer-IsCalm true a h = step-IsCalm _ (λ w. tt)
answer-IsCalm false a h = step-IsCalm _ (λ w. tt)

backend_calm : HasCalmListing backend
backend_calm a limit query = answer-IsCalm (is_disconnected a.status) a refl

abbrev gone : Account
gone = record ada { id = "a9"; status = disconnected }

abbrev everyone : List Account
everyone = gone ∷ ada ∷ []

aggregate_lem_example :
    ((aggregate_unified_inbox machine backend everyone 1 start).0
      ≡ ok (take 1 (sort_by (by_date machine) (all_messages backend 1 everyone start))))
    × IsNewestFirst machine (sort_by (by_date machine) (all_messages backend 1 everyone start))
    × (length (
          select
            (λ m. m.email.is_read)
            (sort_by (by_date machine) (all_messages backend 1 everyone start)))
        ≡ length (select (λ m. m.email.is_read) (all_messages backend 1 everyone start)))
    × (length (take 1 (sort_by (by_date machine) (all_messages backend 1 everyone start)))
        ≡ min 1 (length (all_messages backend 1 everyone start)))
aggregate_lem_example =
    aggregate_lem machine backend backend_calm everyone 1 (λ m. m.email.is_read) start

-- The newer message of the account that is connected.
abbrev newest : List UnifiedEmail
newest = with_account ada (message "m2" "11") ∷ []

aggregate-IsOwned_example : All (IsOwned everyone) newest
unfolding aggregate_unified_inbox uni_mail.Provider.Inbox.fetch_all sort_by by_date
    uni_mail.Provider.Inbox.compare_received_desc
aggregate-IsOwned_example =
    aggregate-IsOwned machine backend backend_calm everyone 1 newest start refl

abbrev pub codec : GraphCodec
codec = record {
  show_status = λ status. "status";
  show_number = λ n. "20";
  append_pair = λ url key value. url;
  push_segment = λ url segment. some url;
  read_message = λ value. none;
  read_profile = λ body. ok (record {
    display_name = some "Eve";
    mail = some "eve@example.org";
    user_principal_name = none;
  });
}

abbrev mail_api : MicrosoftGraph
mail_api = record { base_url = "https://graph"; tokens = manager; codec = codec }

abbrev fine : Response
fine = record { status = 200; text = some "{}" }

-- The stored token has run out, so the request is sent with the one that a refresh gave.
send_authorized_cases_example :
    IsFirst machine mail_api ada get_method "https://graph/me" none connected fine
    ⊎ IsRetried machine mail_api ada get_method "https://graph/me" none connected fine
unfolding send_authorized send retry_unauthorized get_access_token Tokens.get lock Tokens.upsert
    encrypt Tokens.insert_row any Tokens.decode_found find put_row Tokens.decode_row decrypt
    Tokens.time_or_now is_fresh Tokens.parse_time Oauth.add_time cached_or_refreshed Oauth.client
    Oauth.expiry Oauth.lifetime Oauth.refresh Oauth.token_request Oauth.token_set_from account_lock
    uni_mail.Auth.Token.entry bump_last_used join refresh_account refreshed_token should_write
    to_stored write_last_used
send_authorized_cases_example =
    send_authorized_cases machine mail_api ada get_method "https://graph/me" none connected fine
      refl

abbrev pub service : AppState
service = record { config = settings; provider = backend; token_manager = manager }

unified_inbox_bound_example :
    (length newest ≤ 200)
    × ((accounts : List Account) × ((Accounts.list machine "t1" start).0 ≡ ok accounts)
        × All (IsOwned accounts) newest)
unfolding unified_inbox Accounts.list lock Accounts.query_accounts aggregate_unified_inbox
    uni_mail.Provider.Inbox.fetch_all select uni_mail.Storage.Models.parse_status page_limit sort_by
    by_date uni_mail.Provider.Inbox.compare_received_desc
unified_inbox_bound_example =
    unified_inbox_bound machine service "t1" backend_calm (some 1) newest start refl
