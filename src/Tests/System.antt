-- ===== src/Tests/System.antt =====
-- The properties of the whole program, and of refreshes that run together, on the machine.
use mathlib.Core.Path.{subst}
use uni_mail.Common.{
  arith, ap, ℕ, String, ◌≡◌, ◌⊎◌, refl, none, some, true, false, [], ◌∷◌, find, any, select, All,
}
use uni_mail.Error.{Outcome, ok, AppError}
use uni_mail.Exec.{World, lock, ◌>>=◌, ◌>>◌}
use uni_mail.Storage.Models.{Account, as_str, disconnected}
use uni_mail.Storage.Crypto.{encrypt, decrypt}
use uni_mail.Storage.Tokens
use uni_mail.Storage.Tokens.{StoredToken, put_row}
use uni_mail.Storage.Accounts
use uni_mail.Storage.Accounts.{has_id}
use uni_mail.Storage.Consistency.{IsConsistent}
use uni_mail.Auth.Oauth.{TokenSet, refresh, exchange_code}
use uni_mail.Auth.Token.{
  ResolvedIdentity, account_lock, entry, refresh_account, bump_last_used, should_write,
}
use uni_mail.Auth.Token.Rotation.{IsStoredFrom, IsAnswer}
use uni_mail.Storage.Tokens.Laws.{IsReadable}
use uni_mail.Auth.Batch.{disconnect}
use uni_mail.Storage.Flows
use uni_mail.Storage.Flows.{PendingFlow}
use uni_mail.Auth.Flow.{complete_flow}
use uni_mail.Auth.Flow.Complete.{IsFor, IsConnected, complete_flow_connects}
use uni_mail.Auth.Concurrent.{Pc, renewing, Tasks, read_current, renew, Step, Reach}
use uni_mail.Auth.Concurrent.Exclusion.{one_refresh_per_account}
use uni_mail.Auth.Concurrent.Freshness.{SameTokens, refresh_presents_stored}
use uni_mail.Storage.Tokens.Found.{IsInTable}
use uni_mail.Auth.Concurrent.Races.{disconnect_undone, last_use_undoes_refresh}
use uni_mail.Api.Router.{Endpoint, router}
use uni_mail.Api.State.{build}
use uni_mail.System
use uni_mail.System.{Task, Command, first_world, perform}
use uni_mail.System.Consistency.{reachable-IsConsistent}
use uni_mail.System.Secrecy.{reachable-IsSealedAtRest}
use uni_mail.System.Ends.{TaskEnds, IsSound}
use uni_mail.System.Responses.{requests_are_answered}
use uni_mail.Api.Response.{Response, respond}
use uni_mail.Api.Response.Laws.{IsSuccess, IsFailure}
use uni_mail.System.Returns.{reachable_ends}
use uni_mail.Storage.Secrecy.{IsSealedAtRest}
use uni_mail.Tests.Api.{settings}
use uni_mail.Tests.Provider.{codec}
use uni_mail.Tests.Machine.{
  machine, master_key, manager, machine-HasCipher, machine-HasCodecs, machine-clock, expiry_of,
  machine-HasReliableCrates, connected, ada, sample_token, start,
}

-- A consent that is begun over HTTP and completed by its redirect; then a restart.
abbrev pub begin : Task
begin = Task.http (("x-api-key", some "k1") ∷ []) Endpoint.connect_account

abbrev pub redirect : Task
redirect =
    Task.callback
      (record { code = some "code"; state = some "s"; error = none; error_description = none })

abbrev pub life : World
life =
    let parts = build machine codec settings in
    perform machine parts Task.restart
      (perform machine parts redirect (perform machine parts begin first_world))

reachable-IsConsistent_example : IsConsistent life.db
reachable-IsConsistent_example = reachable-IsConsistent machine codec (
    System.Reach.next settings Task.restart
      (System.Reach.next settings redirect (System.Reach.next settings begin System.Reach.start)))

reachable-IsSealedAtRest_example : IsSealedAtRest machine master_key life.db
reachable-IsSealedAtRest_example =
    reachable-IsSealedAtRest machine codec master_key
      (System.Reach.next settings Task.restart
        (System.Reach.next settings redirect (System.Reach.next settings begin System.Reach.start)))
      (refl, (refl, (refl, tt)))

-- A subcommand that connects another account, by a redirect whose flow is unknown.
abbrev connecting : Task
connecting = Task.command (
    Command.add_account none (ok ("127.0.0.1", 53682)) (
      ok (record { code = some "code"; state = some "t"; error = none; error_description = none })))

reachable_ends_example : TaskEnds machine (build machine codec settings) connecting life
unfolding IsSound
reachable_ends_example =
    reachable_ends machine-HasReliableCrates codec (λ text. tt) settings connecting
      (System.Reach.next settings Task.restart
        (System.Reach.next settings redirect (System.Reach.next settings begin System.Reach.start)))
      machine-HasCipher (tt, tt)

-- The first tenant asks for its accounts.
requests_are_answered_example :
    (response : Response) × (respond
        (router machine
          (build machine codec settings)
          (("x-api-key", some "k1") ∷ [])
          Endpoint.list_accounts
          life).0
      ≡ some response)
    × (IsSuccess Endpoint.list_accounts response ⊎ IsFailure response)
requests_are_answered_example =
    requests_are_answered machine-HasReliableCrates codec (λ text. tt) settings
      (("x-api-key", some "k1") ∷ []) Endpoint.list_accounts
      (System.Reach.next settings Task.restart
        (System.Reach.next settings redirect (System.Reach.next settings begin System.Reach.start)))
      machine-HasCipher

-- Two tasks arrive at the account's lock, and the first one gets it.
abbrev arrived : World
arrived = (account_lock machine manager "a1" connected).1

abbrev both : Tasks
both = record {
  world = (read_current machine manager "a1" (account_lock machine manager "a1" arrived).1).1;
  held = uni_mail.Auth.Concurrent.set_held (λ _. false) 0 true;
  pc =
      uni_mail.Auth.Concurrent.set_pc
        (uni_mail.Auth.Concurrent.set_pc
          (uni_mail.Auth.Concurrent.set_pc (λ _. Pc.idle) 0 (Pc.waiting "a1" 0)) 1
          (Pc.waiting "a1" 0))
        0 (Pc.renewing "a1" 0 sample_token);
}

both_reached : Reach machine manager SameTokens connected both
unfolding read_current Tokens.get lock account_lock any Tokens.upsert encrypt Tokens.insert_row
    Tokens.decode_found find put_row Tokens.decode_row decrypt Tokens.time_or_now Tokens.parse_time
    entry
both_reached =
    Reach.later
      (Reach.later (Reach.later Reach.start (Step.arrive 0 "a1" 0 refl refl))
        (Step.arrive 1 "a1" 0 refl refl))
      (Step.enter 0 "a1" 0 refl refl)

abbrev winner : ℕ
winner = 0

one_refresh_per_account_example :
    (winner ≡ winner) × (entry "a1" both.world.refresh_locks ≡ some 0) × (both.held 0 ≡ true)
one_refresh_per_account_example =
    one_refresh_per_account both_reached winner winner "a1" 0 0 sample_token sample_token refl refl

refresh_presents_stored_example : IsInTable machine master_key "a1" sample_token both.world.tokens
refresh_presents_stored_example =
    refresh_presents_stored machine manager both_reached winner "a1" 0 sample_token refl

-- The account is disconnected while its token is renewed.
abbrev dropped : World
dropped = (disconnect machine manager ada connected).1

abbrev restored : World
restored = (renew machine manager "a1" sample_token dropped).1

disconnect_undone_example :
    (set : TokenSet) × (token : StoredToken) × ((refresh machine manager.oauth "old refresh"
        dropped).0
      ≡ ok set)
    × IsStoredFrom sample_token set token
    × ((Tokens.get machine master_key "a1" restored).0 ≡ ok (some token))
    × All (λ r. r.status ≡ as_str disconnected) (select (has_id "t1" "a1") restored.accounts)
unfolding disconnect Tokens.delete lock Tokens.upsert encrypt Tokens.insert_row any
    Accounts.set_status Accounts.now select renew refresh uni_mail.Auth.Token.to_stored
disconnect_undone_example =
    disconnect_undone machine manager machine-HasCipher machine-HasCodecs ada sample_token connected
      dropped restored machine-clock
      (λ set answer.
        subst (IsReadable machine-HasCodecs) (ap expiry_of answer) (omega arith, omega arith))
      refl refl refl refl

abbrev looked : World
looked = (Tokens.get machine master_key "a1" connected).1

abbrev renewed : World
renewed = (refresh_account machine manager "a1" looked).1

last_use_undoes_refresh_example :
    (current : StoredToken) × (set : TokenSet) × (fresh : StoredToken) × (old : StoredToken)
    × IsAnswer machine manager "a1" looked current set
    × IsStoredFrom current set fresh
    × ((Tokens.get machine master_key "a1" renewed).0 ≡ ok (some fresh))
    × ((Tokens.get machine master_key "a1"
          (bump_last_used machine manager "a1" sample_token renewed).1).0
        ≡ ok (some old))
    × (old.access_token ≡ "old access")
    × (old.refresh_token ≡ "old refresh")
unfolding Tokens.get lock Tokens.upsert encrypt Tokens.insert_row any Tokens.decode_found find
    put_row Tokens.decode_row decrypt Tokens.time_or_now Tokens.parse_time refresh_account refresh
    should_write entry
last_use_undoes_refresh_example =
    last_use_undoes_refresh machine manager machine-HasCipher machine-HasCodecs "a1" sample_token
      connected looked renewed renewed machine-clock
      (λ current set answer.
        subst (IsReadable machine-HasCodecs) (ap expiry_of answer.1) (omega arith, omega arith))
      (omega arith, omega arith) refl refl refl refl refl (λ n. refl)

-- A flow that the second tenant has begun is completed by someone whom it does not know yet.
abbrev pending : World
pending = (Flows.insert machine master_key "v" "t2" "s" start).1

abbrev or_ada : Outcome AppError Account → Account
or_ada (ok a) = a
or_ada _ = ada

abbrev newcomer : Account
newcomer = or_ada (complete_flow machine manager "code" "s" pending).0

abbrev joined : World
joined = (complete_flow machine manager "code" "s" pending).1

complete_flow_connects_example :
    (flow : PendingFlow) × (set : TokenSet) × (refresh_token : String)
    × (identity : ResolvedIdentity) × ((Flows.take machine master_key "s" pending).0 ≡ ok flow)
    × ((exchange_code machine manager.oauth "code" flow.verifier
          (Flows.take machine master_key "s" pending).1).0
        ≡ ok set)
    × (set.refresh_token ≡ some refresh_token)
    × ((manager.profile.resolve set.access_token
          (exchange_code machine manager.oauth "code" flow.verifier
            (Flows.take machine master_key "s" pending).1).1).0
        ≡ ok identity)
    × IsFor machine flow.tenant_id identity newcomer
    × IsConnected machine manager set refresh_token newcomer joined
unfolding complete_flow Flows.take lock Flows.insert Flows.unix_now encrypt Flows.insert_row any
    select Flows.remove_row find Flows.open_flow decrypt exchange_code
    uni_mail.Auth.Flow.store_connection Accounts.get_by_email Accounts.query_accounts
    uni_mail.Auth.Flow.connected_account uni_mail.Auth.Flow.create_missing
    uni_mail.Auth.Flow.write_connection uni_mail.Auth.Oauth.add_time uni_mail.Auth.Oauth.client
    uni_mail.Auth.Oauth.expiry uni_mail.Auth.Oauth.lifetime uni_mail.Auth.Oauth.token_request
    uni_mail.Auth.Oauth.token_set_from uni_mail.Auth.Token.join uni_mail.Auth.Token.to_stored
    uni_mail.Exec.sql_message Accounts.conflicts Accounts.create Accounts.first Accounts.get
    Accounts.insert_row Accounts.now Accounts.of_row Accounts.to_row Flows.is_current as_str
    uni_mail.Storage.Models.parse_status Tokens.insert_row put_row Tokens.upsert
complete_flow_connects_example =
    complete_flow_connects machine manager machine-HasCipher machine-HasCodecs "code" "s" newcomer
      pending joined machine-clock
      (λ flow set taken answer.
        subst (IsReadable machine-HasCodecs) (ap expiry_of answer) (omega arith, omega arith))
      refl refl refl
