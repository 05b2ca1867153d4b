-- ===== src/ClientLoop.antt =====
-- client/client.go: how a client finds a server, keeps its connection and gives up, and what it tells
-- the server about its machine.
pub mod Dialing
pub mod Passes
pub mod Servers
pub mod Counting
pub mod GiveUp
pub mod Machine
pub mod Report
