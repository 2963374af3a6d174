-- ===== src/Server/Auth.antt =====
-- crates/fixer-server/src/auth, the tables of users, sessions and tokens in store/sqlite.rs, and the
-- routes of api/v1/auth.rs.
pub mod Secrets
pub mod Store
pub mod Requests
pub mod Routes
pub mod Lifetime
pub mod Guarded
pub mod History
pub mod Forever
pub mod Revoked
pub mod LoggedIn
