-- ===== src/Auth/Concurrent.antt =====
-- src/auth/token.rs: refreshes that run at the same time. `refresh_account` is cut where it waits, at
-- the account's lock and at the token endpoint; between two cuts it runs without a pause.
pub mod Locks
pub mod Exclusion
pub mod Freshness
pub mod Races
use uni_mail.Common.{ℕ, ◌≡◌, String, Bool, true, false, List, Option, some, eqb, if◌then◌else◌}
use mathlib.Core.Option
use uni_mail.Error.{Outcome, ok, err, panic, AppError}
use uni_mail.Exec.{World, Exec, ◌>>=◌, ◌>>◌, or_error}
use uni_mail.Host.{Host}
use uni_mail.Storage.Tokens
use uni_mail.Storage.Tokens.{StoredToken}
use uni_mail.Auth.Oauth.{refresh}
use uni_mail.Auth.Token.{TokenManager, to_stored, account_lock, entry, not_connected}

-- Where a task stands in `refresh_account`.
pub data Pc : Type 0 where
  idle : Pc
  waiting : String → ℕ → Pc
  -- it holds the mutex that it was given for the account, and waits for the token endpoint
  renewing : String → ℕ → StoredToken → Pc
  finished : Outcome AppError (Unit {0}) → Pc

-- The tasks, by number, and which mutexes are held.
pub record Tasks : Type 0 where
  pub world : World
  pub held : ℕ → Bool
  pub pc : ℕ → Pc

abbrev pub set_pc : (ℕ → Pc) → ℕ → Pc → ℕ → Pc
set_pc pc i p j = if eqb j i then p else pc j

abbrev pub set_held : (ℕ → Bool) → ℕ → Bool → ℕ → Bool
set_held held l b k = if eqb k l then b else held k

-- The guard is dropped when the function returns early.
abbrev pub entered : String → ℕ → Outcome AppError StoredToken → Pc
entered id l (ok current) = Pc.renewing id l current
entered id l (err e) = Pc.finished (err e)
entered id l (panic text) = Pc.finished (panic text)

abbrev pub holds : Outcome AppError StoredToken → Bool
holds (ok current) = true
holds _ = false

-- Every entry of a map of locks is in the other one: nothing but `account_lock` writes that map.
abbrev pub Extends : List (String × ℕ) → List (String × ℕ) → Type 0
Extends locks later = (id : String) (l : ℕ) → entry id locks ≡ some l → entry id later ≡ some l

module _ (host : Host) (m : TokenManager) where
  -- Behind the lock, up to the request.
  unfoldable pub read_current : String → Exec AppError StoredToken
  read_current account_id = do
    found ← Tokens.get host m.key account_id
    or_error found not_connected

  -- The request and what follows the answer.
  unfoldable pub renew : String → StoredToken → Exec AppError (Unit {0})
  renew account_id current = do
    set ← refresh host m.oauth current.refresh_token
    stored ← to_stored host m set (Option.get_or set.refresh_token current.refresh_token)
    Tokens.upsert host m.key account_id stored

  -- One step of one task, or a change that something else makes to the state, as far as `Env` says.
  -- A task may be dropped wherever it waits.
  pub data Step (Env : World → World → Type 0) (s : Tasks) : Tasks → Type 0 where
    arrive :
        (i : ℕ) (id : String) (l : ℕ)
        → s.pc i ≡ Pc.idle
        → (account_lock host m id s.world).0 ≡ ok l
        → Step Env s (record {
          world = (account_lock host m id s.world).1;
          held = s.held;
          pc = set_pc s.pc i (Pc.waiting id l);
        })
    enter :
        (i : ℕ) (id : String) (l : ℕ)
        → s.pc i ≡ Pc.waiting id l
        → s.held l ≡ false
        → Step Env s (record {
          world = (read_current id s.world).1;
          held = set_held s.held l (holds (read_current id s.world).0);
          pc = set_pc s.pc i (entered id l (read_current id s.world).0);
        })
    answer :
        (i : ℕ) (id : String) (l : ℕ) (current : StoredToken)
        → s.pc i ≡ Pc.renewing id l current
        → Step Env s (record {
          world = (renew id current s.world).1;
          held = set_held s.held l false;
          pc = set_pc s.pc i (Pc.finished (renew id current s.world).0);
        })
    drop_waiting :
        (i : ℕ) (id : String) (l : ℕ)
        → s.pc i ≡ Pc.waiting id l
        → Step Env s (record s { pc = set_pc s.pc i Pc.idle })
    drop_renewing :
        (i : ℕ) (id : String) (l : ℕ) (current : StoredToken)
        → s.pc i ≡ Pc.renewing id l current
        → Step Env s (record s { held = set_held s.held l false; pc = set_pc s.pc i Pc.idle })
    leave :
        (i : ℕ) (r : Outcome AppError (Unit {0}))
        → s.pc i ≡ Pc.finished r
        → Step Env s (record s { pc = set_pc s.pc i Pc.idle })
    other :
        (w : World)
        → Env s.world w
        → Extends s.world.refresh_locks w.refresh_locks
        → Step Env s (record s { world = w })

  -- The states that follow one in which no task runs.
  pub data Reach (Env : World → World → Type 0) (w : World) : Tasks → Type 0 where
    start : Reach Env w (record { world = w; held = λ _. false; pc = λ _. Pc.idle })
    later : {s t : Tasks} → Reach Env w s → Step Env s t → Reach Env w t
