-- ===== src/Lib.antt =====
-- UniMail, a unified inbox for Microsoft mail accounts (src/ of the repository).
--
-- The program connects mail accounts by OAuth consent, keeps their tokens encrypted in SQLite, hands
-- out access tokens that it refreshes when they run out, and serves mail to tenants over HTTP.
--
-- Files, with the code that they model:
--   Error       src/error.rs: AppError and its texts; results with a panic as a third outcome
--   Host        what the program asks of crates and of the outside: clock, randomness, AES-GCM,
--               RFC 3339 and UTF-8 codecs, failures of the SQL engine, the token endpoint, HTTP
--   Exec        effectful code: Database is the connection of src/storage/db.rs, World adds the keys
--               of the refresh locks, the number of answers given so far and the requests sent;
--               Exec.Inversion, Exec.Calm, Exec.Returns, Exec.Keeps and Exec.Yields hold the rules for
--               chains: what their steps did, that they never panic, that they return where the
--               lock is free, what they keep of the database, and what they return
--   Storage     src/storage: Models (models.rs and the tables of db.rs), Crypto (crypto.rs),
--               Tokens (tokens.rs), Accounts (accounts.rs), Flows (flows.rs). Consistency is about the
--               constraints of the schema of db.rs, Isolation about tenants, Secrecy about what
--               stands in the tables, Free about the lock; Keeping is the interface by which an
--               invariant of the stores reaches their clients. Tokens.Store and Accounts.Store are the
--               traits with their SQLite implementations, Tokens.Spec and Accounts.Spec the map and
--               the directory that these stand for
--   Auth        src/auth: Oauth (oauth.rs), Token, Flow and Batch (token.rs: single tokens, consent
--               flows, and whole batches with disconnecting), Callback (callback.rs), Concurrent
--               (refreshes of token.rs that run at the same time, and what runs beside them). The
--               modules called Keeping, Writes and Returns lift the rules of Exec to these operations
--   Config      src/config.rs: API keys, required variables, the master key; Config.Env loads all
--               settings and finds the callback address, Config.Hex and Config.Numbers read digits,
--               and Config.Keys says what API_KEYS means
--   Provider    src/provider: the models and the trait, Inbox (the unified inbox of mod.rs), Graph
--               (graph.rs) with Graph.Message for what Graph sends and Graph.Profile for who consented
--   Api         src/api: Auth (auth.rs), Routes (the handlers of routes.rs), Errors (its error half),
--               Router (mod.rs), State (state.rs), Json (how the models of storage/models.rs and
--               provider/models.rs are serialised) and Response (what a client gets)
--   Mcp         src/mcp/mod.rs: the tools, on the default tenant
--   Cli         src/cli/mod.rs: the subcommands; Cli.Serve the start of `serve` and what its
--               listeners do with the sockets' answers, Cli.Loop its background loop, Cli.Start what happens before
--               them, with Storage.Open for opening the database of db.rs
--   System      all entry points in one process: HTTP, the callback, tools, commands, background
--               rounds and restarts, and the states that they reach; System.Keeping carries an
--               invariant of the stores through all of them, System.Consistency, System.Isolation
--               and System.Secrecy use it, System.Ends says what it means that a task comes to an
--               end, and System.Responses what every request gets
--   Text, Json  Rust's text functions, and serde_json's values, as far as the program uses them
--   Common      names, tests and lists that all parts share
--   Tests       a small machine on which the assumed laws are proved, and runs on it; Tests.Source
--               has the unit tests of the repository as definitions that run on the model
--
-- How the parts interact: the callback and the routes call the token manager (Auth), which calls the
-- OAuth client and the three stores; the stores share one Database. Every operation is a function from
-- a World to an outcome and a World, so what was written before an error stays written. A `?` is a
-- bind, `map_err` is `on_error`, and `match` on a result is `attempt`, which lets panics through. The
-- callback, the routes, the tools and the commands are all run by System, on the parts that
-- `AppState::build` makes. Auth.Concurrent cuts `refresh_account` where it waits, for the account's lock
-- and for the token endpoint, and lets any number of tasks, dropped requests and foreign changes of the
-- state take turns.
--
-- Parameters and bounds. The n-th question to the host is answered by a function of n, so nothing is
-- assumed about how answers repeat. Each SQL statement may fail with a message of the engine, and
-- then changes nothing. A time is a number of nanoseconds since chrono's earliest time, and adding
-- past `max_time` panics as chrono does. RFC 3339 texts are read back, and are ordered as their times
-- are, for the years 0 to 9999 only; HasCodecs names the first and the last instant of them. Unix
-- seconds are assumed to stand below 2 ^ 63. There is no fuel: every loop of the code runs over a
-- list, but for the background loop, of which any number of rounds is taken.
--
-- SQLite gives the rows of a query by tenant in the order in which they were inserted, as the
-- schema's indexes make it do. The order of the inactive tokens, and that of ORDER BY among equals,
-- are parameters. A mutex of `refresh_locks` is a number, told apart from the others by it.
--
-- The concurrent fetches of the unified inbox are made one after the other, in the order in which they
-- are joined. `sort_by` is Rust's stable sort, whose result is determined.
--
-- Not modelled: interleavings of other calls than refreshes, disconnects and last-use writes
-- (elsewhere one call runs to its end before the next), init_tracing and the fields of logged lines,
-- axum's and rmcp's dispatch and what they extract from a request (with axum's own rejections: 400,
-- 415 and 422 in plain text), the order in which tokio runs the tasks of `serve`, how a JSON value is
-- printed and parsed, clap's parsing, the openers of other systems than Linux, and what SQLite does
-- when a database is opened (a parameter, as are the answers of sockets). A callback server in the
-- command line takes the first redirect only. What serde reads of Graph's answers is a parameter too.
pub mod Common
pub mod Text
pub mod Error
pub mod Json
pub mod Host
pub mod Exec
pub mod Storage
pub mod Provider
pub mod Auth
pub mod Config
pub mod Api
pub mod Mcp
pub mod Cli
pub mod System
pub mod Tests
