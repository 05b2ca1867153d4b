-- ===== src/ClientAuth.antt =====
-- server/clientsauth: the credentials that clients connect with, and what uses them.
pub mod Model
pub mod File
pub mod Cache
pub mod Agreement
pub mod Opening
pub mod Connecting
pub mod Handlers
pub mod Unbound
