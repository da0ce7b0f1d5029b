-- ===== src/Storage.antt =====
-- src/storage: the SQLite persistence layer.
pub mod Models
pub mod Crypto
pub mod Tokens
pub mod Accounts
pub mod Flows
pub mod Consistency
pub mod Isolation
pub mod Keeping
pub mod Reads
pub mod Returns
pub mod Free
pub mod Open
pub mod Secrecy
