-- ===== src/Storage/Open.antt =====
-- src/storage/db.rs: opening the database. What rusqlite does is a parameter.
use Prim.Native.String.{◌++◌}
use uni_mail.Common.{String}
use uni_mail.Error.{Outcome, map_err, AppError, storage}
use uni_mail.Exec.{Database}
use uni_mail.Config.Env.{and_then}

-- `rusqlite`: the tables that are found at a path, and the batches that are run on them. A batch
-- that fails gives the engine's message.
pub record Engine : Type 0 where
  pub connect : String → Outcome String Database
  pub set_pragmas : Database → Outcome String Database
  pub create_tables : Database → Outcome String Database
  -- for tests: a database in memory, and its one pragma
  pub connect_in_memory : Outcome String Database
  pub enforce_foreign_keys : Database → Outcome String Database

module _ (engine : Engine) where
  -- `migrate`
  unfoldable pub migrate : Database → Outcome AppError Database
  migrate db = map_err (λ e. storage ("migration failed: " ++ e)) (engine.create_tables db)

  -- `Database::open`
  unfoldable pub open_database : String → Outcome AppError Database
  unfolding migrate
  open_database path =
      and_then (map_err storage (engine.connect path))
        (λ conn. and_then (map_err storage (engine.set_pragmas conn)) migrate)

  -- `Database::open_in_memory`
  unfoldable pub open_in_memory : Outcome AppError Database
  unfolding migrate
  open_in_memory =
      and_then (map_err storage engine.connect_in_memory)
        (λ conn. and_then (map_err storage (engine.enforce_foreign_keys conn)) migrate)
