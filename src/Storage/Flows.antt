-- ===== src/Storage/Flows.antt =====
-- src/storage/flows.rs: the pending OAuth flows, keyed by the CSRF state. Times are whole seconds of
-- the Unix epoch and stand below 2 ^ 63, so a difference of two of them fits the source's `i64`.
pub mod Laws
use Prim.Native.String.{◌++◌}
use uni_mail.Common.{
  ℕ, ◌+◌, ◌-◌, String, Bool, List, ◌∷◌, Option, none, some, not, ◌==◌, leb, ltb, find, select, any,
  if◌then◌else◌,
}
use uni_mail.Error.{Outcome, ok, err, map_err, AppError}
use uni_mail.Exec.{
  Exec, SqlError, constraint, engine, no_rows, ◌>>=◌, ◌>>◌, pure, fail, lift, ask, reads, writes,
  on_error, or_error, expect, ignore, statement, sql_message, lock,
}
use uni_mail.Host.{Host}
use uni_mail.Storage.Models.{FlowRow}
use uni_mail.Storage.Crypto.{encrypt, decrypt}

abbrev pub flow_ttl_secs : ℕ
flow_ttl_secs = 600

pub record PendingFlow : Type 0 where
  pub verifier : String
  pub tenant_id : String
  pub created_at : ℕ

pub data FlowError : Type 0 where
  unknown_state expired : FlowError
  storage : String → FlowError

abbrev pub or_epoch : Option ℕ → ℕ
or_epoch none = 0
or_epoch (some s) = s

-- `unix_now`
unfoldable pub unix_now : {E : Type 0} → Host → Exec E ℕ
unix_now host = do s ← ask host.unix_time; pure (or_epoch s)

abbrev pub has_state : String → FlowRow → Bool
has_state state r = r.state == state

-- `DELETE FROM oauth_flows WHERE created_at <= ?1`, with the time that the source passes
unfoldable pub is_current : ℕ → FlowRow → Bool
is_current now r = not (leb (r.created_at + flow_ttl_secs) now)

unfoldable pub insert_row : FlowRow → Exec SqlError (Unit {0})
insert_row row = do
  taken ← reads (λ db. any (has_state row.state) db.flows)
  if taken
      then fail (constraint "UNIQUE constraint failed")
      else writes (λ db. record db { flows = row ∷ db.flows })

-- `FlowStore::insert`: both statements may fail unnoticed.
unfoldable pub insert : Host → List ℕ → String → String → String → Exec AppError (Unit {0})
insert host key verifier tenant_id state = do
  created_at ← unix_now host
  verifier_blob ←
      expect "AES-256-GCM encryption cannot fail with a valid key"
        (encrypt host key (host.as_bytes verifier))
  expect {E = AppError} "database lock poisoned" lock
  ignore (
      statement host (writes (λ db. record db { flows = select (is_current created_at) db.flows })))
  ignore (
      statement host (
        insert_row (record {
          state = state;
          verifier = verifier_blob;
          tenant_id = tenant_id;
          created_at = created_at;
        })))

-- The error of `query_row`.
abbrev pub query_error : SqlError → FlowError
query_error no_rows = unknown_state
query_error e = storage (sql_message e)

abbrev pub decrypt_error : String → FlowError
decrypt_error e = storage ("decrypt verifier: " ++ e)

abbrev pub utf8_error : String → FlowError
utf8_error e = storage ("verifier is not valid UTF-8: " ++ e)

-- The part of `take` behind the statements: the age, then the verifier.
unfoldable pub open_flow : Host → List ℕ → FlowRow → ℕ → Exec FlowError PendingFlow
open_flow host key row now = if ltb flow_ttl_secs (now - row.created_at) then fail expired else do
  bytes ← lift (map_err decrypt_error (decrypt host key row.verifier))
  verifier ← lift (map_err utf8_error (host.from_utf8 bytes))
  pure (record { verifier = verifier; tenant_id = row.tenant_id; created_at = row.created_at })

-- The two statements of `take`: read the flow, then consume it.
unfoldable pub remove_row : Host → String → Exec FlowError FlowRow
remove_row host state = do
  row ← on_error query_error (
      statement host
        (reads (λ db. find (has_state state) db.flows) >>= λ found. or_error found no_rows))
  on_error (λ e. storage (sql_message e))
      (statement host
        (writes (λ db. record db { flows = select (λ r. not (has_state state r)) db.flows })))
  pure row

-- `FlowStore::take`
unfoldable pub take : Host → List ℕ → String → Exec FlowError PendingFlow
take host key state = do
  on_error (λ (_ : AppError). storage "database lock poisoned") lock
  row ← remove_row host state
  now ← unix_now host
  open_flow host key row now
