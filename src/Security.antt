-- ===== src/Security.antt =====
-- share/security: the ban lists.
pub mod BanList
