-- ===== src/Storage/Tokens/Store.antt =====
-- The trait of src/storage/tokens.rs, its SQLite implementation, and calls of it.
use uni_mail.Common.{ℕ, String, List, [], ◌∷◌, Option}
use uni_mail.Error.{Outcome, AppError}
use uni_mail.Exec.{World, Exec, ◌>>=◌, pure}
use uni_mail.Host.{Host}
use uni_mail.Storage.Tokens
use uni_mail.Storage.Tokens.{StoredToken}

-- `trait TokenStore`
pub record TokenStore : Type 0 where
  pub get : String → Exec AppError (Option StoredToken)
  pub upsert : String → StoredToken → Exec AppError (Unit {0})
  pub delete : String → Exec AppError (Unit {0})
  pub list_inactive : ℕ → Exec AppError (List String)

-- `SqliteTokenStore::new`, with the trait's implementation
unfoldable pub sqlite_token_store : Host → List ℕ → TokenStore
sqlite_token_store host key = record {
  get = Tokens.get host key;
  upsert = Tokens.upsert host key;
  delete = Tokens.delete host;
  list_inactive = Tokens.list_inactive host;
}

pub data Call : Type 0 where
  get : String → Call
  upsert : String → StoredToken → Call
  delete : String → Call
  list_inactive : ℕ → Call

pub data Answer : Type 0 where
  found : Option StoredToken → Answer
  done : Answer
  ids : List String → Answer

unfoldable pub call : TokenStore → Call → Exec AppError Answer
call store (get id) = do token ← store.get id; pure (found token)
call store (upsert id token) = do store.upsert id token >>= λ _. pure done
call store (delete id) = do store.delete id >>= λ _. pure done
call store (list_inactive cutoff) = do late ← store.list_inactive cutoff; pure (ids late)

-- Calls made one after the other, whether they succeed or not: what each of them answers.
unfoldable pub answers : TokenStore → List Call → World → List (Outcome AppError Answer)
unfolding call
answers store [] w = []
answers store (c ∷ calls) w = let (r, w') = call store c w in r ∷ answers store calls w'
