-- ===== src/Acl.antt =====
-- The rules on nodes: server/internal/dao/acl.go, and the checks of
-- server/internal/service/authorization/service.go on top of its queries.
pub mod Tables
pub mod Effective
pub mod Changes
pub mod Service
pub mod Reading
pub mod Bulk
pub mod Agreement
pub mod Upserts
pub mod Granting
pub mod Replacing
pub mod Revoking
