-- ===== src/System/Isolation.antt =====
-- Tenants that share the program (src/api, src/auth/callback.rs, src/mcp, src/cli): what is done for one
-- of them leaves the others' accounts and tokens alone.
pub mod Calls
pub mod Handlers
pub mod Tools
pub mod Tasks
