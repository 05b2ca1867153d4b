-- ===== src/Login.antt =====
-- server/api_session.go, bearer_auth.go, 2fa_auth.go, and the login and authentication parts of
-- server/api_listener.go and api.go.
pub mod Model
pub mod Lifetime
pub mod Credentials
pub mod Handlers
pub mod Admission
pub mod Preserved
pub mod Keyed
pub mod Steps
pub mod Logout
pub mod Lockout
pub mod SecondFactor
