-- ===== src/Security.antt =====
-- src/astra/security.
pub mod Users
pub mod Acl
