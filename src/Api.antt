-- ===== src/Api.antt =====
-- src/api: the REST API.
pub mod Auth
pub mod Errors
pub mod Routes
pub mod State
pub mod Router
pub mod Json
pub mod Response
