-- ===== src/Vault.antt =====
-- server/vault: the encrypted store for secrets.
pub mod Model
pub mod Pass
pub mod Sqlite
pub mod Manager
pub mod Locking
pub mod Steps
pub mod Unlocking
pub mod Rows
pub mod Values
pub mod Access
pub mod Fresh
