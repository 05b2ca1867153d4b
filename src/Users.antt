-- ===== src/Users.antt =====
-- server/api/users: the users of the API and where they are kept.
pub mod Tables
pub mod Database
pub mod Model
pub mod File
pub mod FileAdapter
pub mod Parsing
pub mod Changes
pub mod Service
pub mod Taken
