-- ===== src/Auth.antt =====
-- src/auth: OAuth and the token lifecycle.
pub mod Oauth
pub mod Token
pub mod Flow
pub mod Batch
pub mod Callback
pub mod Concurrent
pub mod Keeping
pub mod Returns
