-- ===== src/Tests/Source/Flows.antt =====
-- The unit tests of src/storage/flows.rs.
use uni_mail.Common.{ℕ, ◌-◌, refl, Bool, true, false, List, map, ◌==◌, any, find, select}
use uni_mail.Error.{Outcome, err, AppError}
use uni_mail.Exec.{Exec, ◌>>=◌, ◌>>◌, attempt, lock, statement, writes}
use uni_mail.Host.{Host}
use uni_mail.Storage.Models.{FlowRow}
use uni_mail.Storage.Crypto.{encrypt, decrypt}
use uni_mail.Storage.Open.{open_in_memory}
use uni_mail.Storage.Flows
use uni_mail.Storage.Flows.{PendingFlow, FlowError, unknown_state, expired, unix_now, flow_ttl_secs}
use uni_mail.Tests.Source.{assert, unwrap, Passes, replicate, lab, open_database}

abbrev key : List ℕ
key = replicate 32 7

abbrev is_unknown : Outcome FlowError PendingFlow → Bool
is_unknown (err unknown_state) = true
is_unknown r = false

abbrev is_expired : Outcome FlowError PendingFlow → Bool
is_expired (err expired) = true
is_expired r = false

abbrev round_trip : Host → Exec AppError (Unit {0})
round_trip host = do
  open_database
  Flows.insert host key "verifier-123" "tenant-a" "state-123"
  flow ← unwrap (Flows.take host key "state-123")
  assert (flow.verifier == "verifier-123")
  assert (flow.tenant_id == "tenant-a")

abbrev unknown_state_rejected : Host → Exec AppError (Unit {0})
unknown_state_rejected host = do
  open_database
  taken ← attempt (Flows.take host key "nope")
  assert (is_unknown taken)

abbrev state_is_single_use : Host → Exec AppError (Unit {0})
state_is_single_use host = do
  open_database
  Flows.insert host key "v" "t" "s"
  flow ← unwrap (Flows.take host key "s")
  again ← attempt (Flows.take host key "s")
  assert (is_unknown again)

-- A store is its database and its key, so a fresh one over the same database is the same calls.
abbrev flow_survives_store_reopen : Host → Exec AppError (Unit {0})
flow_survives_store_reopen host = do
  open_database
  Flows.insert host key "v" "t" "s"
  flow ← unwrap (Flows.take host key "s")
  assert (flow.verifier == "v")

-- `UPDATE oauth_flows SET created_at = ?1`
abbrev backdate : Host → ℕ → Exec AppError (Unit {0})
backdate host time = do
  unwrap lock
  unwrap (
      statement host (
        writes (λ db. record db {
          flows = map (λ (r : FlowRow). record r { created_at = time }) db.flows;
        })))

abbrev expired_flow_rejected : Host → Exec AppError (Unit {0})
expired_flow_rejected host = do
  open_database
  Flows.insert host key "v" "t" "s"
  now ← unix_now host
  backdate host (now - flow_ttl_secs - 1)
  taken ← attempt (Flows.take host key "s")
  assert (is_expired taken)

round_trip-Passes : Passes (round_trip lab)
unfolding open_in_memory Flows.insert Flows.insert_row Flows.is_current Flows.take Flows.remove_row
    Flows.open_flow unix_now encrypt decrypt lock any find select
round_trip-Passes = refl

unknown_state_rejected-Passes : Passes (unknown_state_rejected lab)
unfolding open_in_memory Flows.take Flows.remove_row lock find
unknown_state_rejected-Passes = refl

state_is_single_use-Passes : Passes (state_is_single_use lab)
unfolding open_in_memory Flows.insert Flows.insert_row Flows.is_current Flows.take Flows.remove_row
    Flows.open_flow unix_now encrypt decrypt lock any find select
state_is_single_use-Passes = refl

flow_survives_store_reopen-Passes : Passes (flow_survives_store_reopen lab)
unfolding open_in_memory Flows.insert Flows.insert_row Flows.is_current Flows.take Flows.remove_row
    Flows.open_flow unix_now encrypt decrypt lock any find select
flow_survives_store_reopen-Passes = refl

expired_flow_rejected-Passes : Passes (expired_flow_rejected lab)
unfolding open_in_memory Flows.insert Flows.insert_row Flows.is_current Flows.take Flows.remove_row
    Flows.open_flow unix_now encrypt decrypt lock any find select
expired_flow_rejected-Passes = refl
