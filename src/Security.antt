-- ===== src/Security.antt =====
-- security/: who may act, and for how long.
pub mod Role
pub mod Session
pub mod ServiceToken
pub mod Identity
pub mod Manager
pub mod PasswordPolicy
