-- ===== src/Clients.antt =====
-- server/clients, server/cgroups, server/client_service.go: the clients that the server knows.
pub mod Acl
pub mod Groups
pub mod Model
pub mod Reestablish
pub mod Repository
pub mod Service
pub mod Start
pub mod Tunnels
pub mod Requests
pub mod Asked
pub mod Access
pub mod Lifecycle
pub mod Obsolete
pub mod Deletion
pub mod Refusal
pub mod Granting
