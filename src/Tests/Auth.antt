-- ===== src/Tests/Auth.antt =====
-- The properties of src/auth on the machine.
use mathlib.Core.Path.{subst}
use uni_mail.Common.{
  arith, ap, ◌≡◌, ◌⊎◌, refl, pos, none, some, List, [], ◌∷◌, map, length, find, select, any, All,
}
use uni_mail.Error.{Outcome, ok, err, panic, AppError}
use uni_mail.Exec.{lock}
use uni_mail.Storage.Models.{Account, parse_status, as_str, disconnected, active}
use uni_mail.Storage.Crypto.{encrypt, decrypt}
use uni_mail.Storage.Tokens
use uni_mail.Storage.Tokens.{StoredToken, owned_by, put_row}
use uni_mail.Storage.Accounts
use uni_mail.Storage.Accounts.{has_id}
use uni_mail.Storage.Tokens.Laws.{IsReadable}
use uni_mail.Storage.Flows
use uni_mail.Storage.Flows.{unknown_state}
use uni_mail.Auth.Flow.{flow_error, complete_flow}
use uni_mail.Auth.Flow.Refusal.{complete_flow_refuses}
use uni_mail.Auth.Oauth
use uni_mail.Auth.Oauth.{TokenSet}
use uni_mail.Auth.Token.{
  ResolvedIdentity, is_fresh, cached_or_refreshed, account_lock, bump_last_used, refreshed_token,
  should_write, to_stored, write_last_used, get_access_token, refresh_account, join,
}
use uni_mail.Auth.Token.Access.{get_access_token_sound, IsCached, IsRefreshed}
use uni_mail.Auth.Token.Rotation.{refresh_account_stores, IsAnswer, IsStoredFrom}
use uni_mail.Auth.Flow.{store_connection}
use uni_mail.Auth.Flow.Connect.{reconnect_keeps_accounts}
use uni_mail.Auth.Batch.{refresh_all, refresh_stale, cutoff, disconnect}
use uni_mail.Auth.Batch.Laws.{is_connected, refresh_all_covers, disconnect_lem}
use uni_mail.Tests.Machine.{
  machine, master_key, manager, machine-HasCipher, machine-HasCodecs, machine-clock, expiry_of,
  machine-HasCalmCrates, start, connected, ada,
}

get_access_token_sound_example :
    IsCached machine manager "a1" connected "new access"
    ⊎ IsRefreshed machine manager "a1" connected "new access"
unfolding get_access_token Tokens.get lock Tokens.upsert encrypt Tokens.insert_row any
    Tokens.decode_found find put_row Tokens.decode_row decrypt Tokens.time_or_now is_fresh
    Tokens.parse_time Oauth.add_time cached_or_refreshed Oauth.client Oauth.expiry Oauth.lifetime
    Oauth.refresh Oauth.token_request Oauth.token_set_from account_lock uni_mail.Auth.Token.entry
    bump_last_used join refresh_account refreshed_token should_write to_stored write_last_used
get_access_token_sound_example =
    get_access_token_sound machine manager "a1" "new access" connected refl

-- The endpoint's answers run out soon.
refreshed-IsReadable :
    (current : StoredToken) (set : TokenSet)
    → IsAnswer machine manager "a1" connected current set
    → IsReadable machine-HasCodecs set.expires_at
unfolding refresh_account Tokens.get lock any Tokens.upsert encrypt Tokens.insert_row
    Tokens.decode_found find put_row Tokens.decode_row decrypt Tokens.time_or_now Oauth.refresh
    Oauth.token_request Oauth.token_set_from Oauth.client Oauth.expiry Oauth.add_time Oauth.lifetime
    account_lock uni_mail.Auth.Token.entry Tokens.parse_time
refreshed-IsReadable current set (read, answer) =
    subst (IsReadable machine-HasCodecs) (ap expiry_of answer) (omega arith, omega arith)

refresh_account_stores_example :
    (current : StoredToken) × (set : TokenSet) × (token : StoredToken) × IsAnswer machine manager
      "a1" connected current set
    × IsStoredFrom current set token
    × ((Tokens.get machine master_key "a1" (refresh_account machine manager "a1" connected).1).0
        ≡ ok (some token))
unfolding refresh_account Tokens.get lock any Tokens.upsert encrypt Tokens.insert_row
    Tokens.decode_found find put_row Tokens.decode_row decrypt Tokens.time_or_now Oauth.refresh
    uni_mail.Auth.Token.entry
refresh_account_stores_example =
    refresh_account_stores machine manager "a1" connected machine-HasCipher machine-HasCodecs
      machine-clock refreshed-IsReadable refl refl refl

abbrev bob : Account
bob = record {
  id = "a2";
  tenant_id = "t2";
  email_address = "bob@example.org";
  display_name = none;
  provider = "microsoft";
  status = disconnected;
  created_at = "";
  updated_at = "";
}

abbrev listed : List Account
listed = ada ∷ bob ∷ []

abbrev bob_identity : ResolvedIdentity
bob_identity = record { email = "bob@example.org"; display_name = some "Bob" }

abbrev granted : TokenSet
granted = record {
  access_token = "access";
  refresh_token = some "refresh";
  expires_at = some 9;
  scopes = none;
}

abbrev reconnected : Account
reconnected = record bob { display_name = some "Bob"; status = active; updated_at = "1111" }

refresh_all_covers_example :
    (outcomes : List (Account × Outcome AppError (Unit {0}))) × ((refresh_all machine manager
        connected).0
      ≡ ok outcomes)
    × (map (λ (e : Account × Outcome AppError (Unit {0})). e.0) outcomes
        ≡ select is_connected listed)
unfolding Accounts.list_all lock Tokens.upsert encrypt Tokens.insert_row any Accounts.query_accounts
    parse_status
refresh_all_covers_example =
    refresh_all_covers machine manager machine-HasCalmCrates listed connected refl

disconnect_lem_example :
    (find (owned_by "a1") (disconnect machine manager ada connected).1.tokens ≡ none)
    × All
        (λ r. r.status ≡ as_str disconnected)
        (select (has_id "t1" "a1") (disconnect machine manager ada connected).1.accounts)
    × (length (disconnect machine manager ada connected).1.accounts ≡ length connected.accounts)
unfolding disconnect Tokens.delete lock Tokens.upsert encrypt Tokens.insert_row any
    Accounts.set_status Accounts.now select
disconnect_lem_example = disconnect_lem machine manager ada connected refl

-- The account of the second tenant was disconnected, and connects again.
reconnect_keeps_accounts_example :
    (reconnected.status ≡ active)
    × (reconnected.id ≡ "a2")
    × ((store_connection machine manager "t2" bob_identity granted "refresh" start).1.accounts
        ≡ start.accounts)
unfolding Accounts.get_by_email lock Accounts.query_accounts Accounts.first select parse_status
    store_connection Accounts.get uni_mail.Auth.Flow.write_connection Tokens.upsert encrypt
    Tokens.insert_row any
reconnect_keeps_accounts_example =
    reconnect_keeps_accounts machine manager "t2" bob_identity granted "refresh" start bob
      reconnected refl refl

-- No flow is pending, so every state is unknown.
complete_flow_refuses_example :
    ((complete_flow machine manager "code" "forged" start).0 ≡ err (flow_error unknown_state))
    × ((complete_flow machine manager "code" "forged" start).1.requests ≡ start.requests)
    × ((complete_flow machine manager "code" "forged" start).1.accounts ≡ start.accounts)
    × ((complete_flow machine manager "code" "forged" start).1.tokens ≡ start.tokens)
unfolding Flows.take lock Flows.remove_row find
complete_flow_refuses_example =
    complete_flow_refuses machine manager "code" "forged" unknown_state start refl

-- A threshold that leads past chrono's earliest time.
huge_threshold-panics :
    (refresh_stale machine manager (pos 3000) start).0 ≡ panic "`DateTime - TimeDelta` overflowed"
unfolding refresh_stale cutoff
huge_threshold-panics = refl
