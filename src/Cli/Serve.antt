-- ===== src/Cli/Serve.antt =====
-- src/cli/mod.rs: `serve` up to its first await, what its two listeners do with a socket's answer, and
-- `open_browser`. What the sockets, axum and the system's programs answer are arguments; the lines that
-- are logged keep their message and leave out tracing's fields. The order in which tokio runs the tasks
-- is not modelled.
use Prim.Native.String
use uni_mail.Common.{ℕ, String, Bool, List, [], ◌∷◌, Option, none, some, if◌then◌else◌}
use uni_mail.Error.{Outcome, ok, err, panic, AppError, io}
use uni_mail.Config.{Config}
use uni_mail.Config.Env.{and_then, RedirectUrl}
use uni_mail.Cli.Start.{Addresses, serve_addresses}

-- Where a listener stands: its address is not bound yet, it accepts connections, or it has ended.
pub data Stage : Type 0 where
  binding : String × ℕ → Stage
  accepting : String × ℕ → Stage
  ended : Stage

-- The process of `serve`: its own listener (the REST API) and the spawned callback listener.
pub record Process : Type 0 where
  pub api : Stage
  pub callback : Stage

-- `serve`, up to its first await: the addresses are checked, then the two tasks are spawned.
unfoldable pub serve :
    Addresses
    → (String → Outcome String RedirectUrl)
    → (String × ℕ → String)
    → Config
    → Outcome AppError Process
unfolding serve_addresses
serve parse_addr parse_url show_addr c =
    and_then (serve_addresses parse_addr parse_url show_addr c) (λ listeners.
      ok (record { api = binding listeners.api; callback = binding listeners.callback }))

-- The spawned callback listener, when `TcpListener::bind` or `axum::serve` has answered.
unfoldable pub callback_answered : Outcome String (Unit {0}) → Stage → Stage × List String
callback_answered (ok _) (binding addr) = (accepting addr, "OAuth callback listener started" ∷ [])
callback_answered (err e) (binding addr) =
    (ended, "could not bind OAuth callback listener; POST /accounts/connect will not complete" ∷ [])
callback_answered (err e) (accepting addr) = (ended, "OAuth callback listener failed" ∷ [])
callback_answered (ok _) (accepting addr) = (ended, [])
callback_answered (panic _) stage = (ended, [])
callback_answered _ ended = (ended, [])

-- The REST API of `serve`, when `TcpListener::bind` or `axum::serve` has answered: where it stands,
-- what is logged, and what `serve` returns if it does.
unfoldable pub api_answered :
    (String × ℕ → String)
    → Outcome String (Unit {0})
    → Stage
    → Stage × List String × Option (Outcome AppError (Unit {0}))
api_answered show_addr (ok _) (binding addr) = (accepting addr, "REST API listening" ∷ [], none)
api_answered show_addr (err e) (binding addr) = (
  ended,
  [],
  some (err (io (String.◌++◌ "bind " (String.◌++◌ (show_addr addr) (String.◌++◌ ": " e))))),
)
api_answered show_addr (ok _) (accepting addr) = (ended, [], some (ok tt))
api_answered show_addr (err e) (accepting addr) = (ended, [], some (err (io e)))
api_answered show_addr (panic text) stage = (ended, [], some (panic text))
api_answered show_addr _ ended = (ended, [], none)

-- The openers of a Linux system.
abbrev pub openers : List String
openers = "xdg-open" ∷ "sensible-browser" ∷ []

-- `open_browser`, given which programs can be spawned: the programs that it tries.
unfoldable pub open_browser : (String → Bool) → List String → List String
open_browser spawns [] = []
open_browser spawns (opener ∷ rest) =
    let tried = open_browser spawns rest in if spawns opener then opener ∷ [] else opener ∷ tried
