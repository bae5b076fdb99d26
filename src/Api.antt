-- ===== src/Api.antt =====
-- src/api: the HTTP handlers.
pub mod Errors
pub mod Jobs
pub mod Authentication
pub mod Import
pub mod Cors
pub mod Health
pub mod Routes
