-- ===== src/Exec.antt =====
-- Effectful code: the database that all parts share (src/storage/db.rs), the number of answers that
-- the host has given, and the requests that were sent. A computation returns its outcome beside the
-- new state, so what was written before an error stays written.
pub mod Inversion
pub mod Calm
pub mod Keeps
pub mod Returns
pub mod Yields
use uni_mail.Common.{ℕ, ◌+◌, String, Bool, Option, none, some, List, ◌∷◌, if◌then◌else◌}
use uni_mail.Error.{Outcome, ok, err, panic, map_err, AppError, storage}
use uni_mail.Host.{Host, Request}
use uni_mail.Storage.Models.{AccountRow, TokenRow, FlowRow}

-- `Database`: the connection behind a mutex that a panicking holder poisons.
pub record Database : Type 0 where
  pub accounts : List AccountRow
  pub tokens : List TokenRow
  pub flows : List FlowRow
  pub poisoned : Bool

pub record World : Type 0 where
  pub db : Database
  pub open db use *
  -- `TokenManager::refresh_locks` (src/auth/token.rs): an account's mutex is told by a number
  pub refresh_locks : List (String × ℕ)
  pub answers : ℕ
  pub requests : List Request

abbrev pub Exec : Type 0 → Type 0 → Type 0
Exec E A = World → Outcome E A × World

-- What follows an outcome: an error or a panic skips it.
abbrev pub continue : {E A B : Type 0} → Outcome E A → (A → Exec E B) → World → Outcome E B × World
continue (ok a) f w = f a w
continue (err e) f w = (err e, w)
continue (panic m) f w = (panic m, w)

infixl 5 ◌>>=◌ ◌>>◌
abbrev pub ◌>>=◌ : {E A B : Type 0} → Exec E A → (A → Exec E B) → Exec E B
◌>>=◌ m f w = let (r, w') = m w in continue r f w'

abbrev pub ◌>>◌ : {E A B : Type 0} → Exec E A → Exec E B → Exec E B
m >> k = m >>= λ _. k

abbrev pub pure : {E A : Type 0} → A → Exec E A
pure a w = (ok a, w)

abbrev pub fail : {E A : Type 0} → E → Exec E A
fail e w = (err e, w)

-- A panic.
abbrev pub crash : {E A : Type 0} → String → Exec E A
crash m w = (panic m, w)

-- A pure outcome as a computation: `r?`
abbrev pub lift : {E A : Type 0} → Outcome E A → Exec E A
lift r w = (r, w)

-- The outcome itself as the value: matching on a result. A panic is not caught.
abbrev pub caught : {E F A : Type 0} → Outcome E A → Outcome F (Outcome E A)
caught (ok a) = ok (ok a)
caught (err e) = ok (err e)
caught (panic m) = panic m

abbrev pub attempt : {E F A : Type 0} → Exec E A → Exec F (Outcome E A)
attempt m w = let (r, w') = m w in (caught r, w')

-- `m.map_err(f)`
abbrev pub on_error : {E F A : Type 0} → (E → F) → Exec E A → Exec F A
on_error f m w = let (r, w') = m w in (map_err f r, w')

-- `m.expect(text)`
abbrev pub expected : {E F A : Type 0} → String → Outcome E A → Outcome F A
expected text (ok a) = ok a
expected text (err e) = panic text
expected text (panic m) = panic m

abbrev pub expect : {E F A : Type 0} → String → Exec E A → Exec F A
expect text m w = let (r, w') = m w in (expected text r, w')

-- `let _ = m;`
abbrev pub ignore : {E F A : Type 0} → Exec E A → Exec F (Unit {0})
ignore m = attempt m >>= λ _. pure tt

-- `o.ok_or_else(|| e)`
abbrev pub or_error : {E A : Type 0} → Option A → E → Exec E A
or_error none e w = (err e, w)
or_error (some a) e w = (ok a, w)

-- The next answer of a part of the host.
abbrev pub ask : {E A : Type 0} → (ℕ → A) → Exec E A
ask f w = (ok (f w.answers), record w { answers = w.answers + 1 })

-- An answer to a request that leaves the process.
abbrev pub request : {E A : Type 0} → Request → (ℕ → A) → Exec E A
request r f w = (ok (f w.answers), record w { answers = w.answers + 1; requests = r ∷ w.requests })

-- A value that is read from the database, and a change of the database.
abbrev pub reads : {E A : Type 0} → (Database → A) → Exec E A
reads f w = (ok (f w.db), w)

abbrev pub writes : {E : Type 0} → (Database → Database) → Exec E (Unit {0})
writes f w = (ok tt, record w { db = f w.db })

-- `rusqlite::Error`, as far as the program tells its cases apart.
pub data SqlError : Type 0 where
  constraint engine : String → SqlError
  no_rows : SqlError

-- `e.to_string()`
unfoldable pub sql_message : SqlError → String
sql_message (constraint m) = m
sql_message (engine m) = m
sql_message no_rows = "Query returned no rows"

-- The storage error that most statements turn an SQL error into.
abbrev pub sql_storage : SqlError → AppError
sql_storage e = storage (sql_message e)

-- One statement given to the SQL engine: it does its work, or fails and changes nothing.
abbrev pub unless_fault : {A : Type 0} → Option String → Exec SqlError A → Exec SqlError A
unless_fault none run = run
unless_fault (some m) run = fail (engine m)

abbrev pub statement : {A : Type 0} → Host → Exec SqlError A → Exec SqlError A
statement host run = ask host.sql_fault >>= λ fault. unless_fault fault run

-- `conn.lock().map_err(…)?` of src/storage/db.rs and the stores
unfoldable pub lock : Exec AppError (Unit {0})
lock w = (if w.poisoned then err (storage "database lock poisoned") else ok tt, w)
