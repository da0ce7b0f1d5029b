-- ===== src/Tests/Storage.antt =====
-- The properties of src/storage on the machine.
use uni_mail.Common.{
  ◌+◌, ◌≡◌, refl, some, [], ◌∷◌, find, select, any, String, Bool, List, arith, false≢true, ◌≢◌,
  eq_iff, inr,
}
use uni_mail.Error.{ok, err}
use uni_mail.Exec.{World, lock}
use uni_mail.Storage.Crypto.{encrypt, decrypt}
use uni_mail.Storage.Tokens
use uni_mail.Storage.Tokens.{owned_by, put_row}
use uni_mail.Storage.Tokens.Laws.{HasReadableTimes, get-upsert}
use uni_mail.Storage.Tokens.Store.{Call, sqlite_token_store, answers}
use uni_mail.Storage.Tokens.Spec.{specified, AllAgree}
use uni_mail.Storage.Tokens.Refinement.{token_store_refines}
use uni_mail.Storage.Flows
use uni_mail.Storage.Flows.{unknown_state}
use uni_mail.Storage.Flows.Laws.{take_once, take-insert}
use uni_mail.Tests.Machine.{
  machine, master_key, machine-HasCipher, machine-HasCodecs, machine-HasOrderedTimes, machine-utf8,
  start, connected, sample_token,
}

sample_token-HasReadableTimes : HasReadableTimes machine-HasCodecs sample_token
sample_token-HasReadableTimes = ((omega arith, omega arith), tt, (omega arith, omega arith))

get-upsert_example :
    Tokens.get machine master_key "a1" connected
    ≡ (ok (some sample_token), record connected { answers = connected.answers + 1 })
unfolding Tokens.upsert Tokens.insert_row encrypt lock any put_row
get-upsert_example =
    get-upsert machine master_key "a1" machine-HasCipher machine-HasCodecs sample_token start
      connected sample_token-HasReadableTimes refl refl refl refl

distinct_ids : ◌≢◌ {A = String} "a1" "a2"
distinct_ids h = false≢true ((eq_iff "a1" "a2").1 h)

-- A token is stored, found, listed as idle and removed; one without an account is refused.
abbrev token_calls : List Call
token_calls =
    Call.get "a1"
    ∷ Call.upsert "a1" sample_token
    ∷ Call.get "a1"
    ∷ Call.upsert "unknown" sample_token
    ∷ Call.list_inactive 9
    ∷ Call.delete "a1"
    ∷ Call.get "a1"
    ∷ []

abbrev owners : String → Bool
owners id = Tokens.has_account id start.accounts

token_store_refines_example :
    AllAgree
      (answers (sqlite_token_store machine master_key) token_calls start)
      (specified machine owners token_calls [])
token_store_refines_example =
    token_store_refines machine master_key machine-HasCipher machine-HasCodecs
      machine-HasOrderedTimes (λ id rows. refl) (λ n. refl) owners token_calls start []
      (
        tt,
        (
          sample_token-HasReadableTimes,
          (tt, (sample_token-HasReadableTimes, ((omega arith, omega arith), (tt, (tt, tt))))),
        ),
      )
      (record { free = refl; rows = tt; owned = λ id. refl })

-- A flow recorded at second 3 and taken at second 8.
abbrev pending : World
pending = (Flows.insert machine master_key "verifier" "t1" "state" start).1

take-insert_example :
    (Flows.take machine master_key "state" pending).0
    ≡ ok (record { verifier = "verifier"; tenant_id = "t1"; created_at = 3 })
unfolding Flows.insert Flows.insert_row Flows.unix_now lock encrypt any select Flows.is_current find
take-insert_example =
    take-insert machine master_key machine-HasCipher machine-utf8 "verifier" "t1" "state" start
      pending refl refl refl refl refl refl refl refl

take_once_example :
    (Flows.take machine master_key "state" (Flows.take machine master_key "state" pending).1).0
    ≡ err unknown_state
unfolding Flows.insert Flows.insert_row Flows.unix_now lock encrypt any select Flows.is_current
    Flows.take Flows.remove_row Flows.open_flow find decrypt
take_once_example =
    take_once machine master_key "state" pending (Flows.take machine master_key "state" pending).1
      (inr
        (record { verifier = "verifier"; tenant_id = "t1"; created_at = 3 }, take-insert_example))
      refl refl refl
