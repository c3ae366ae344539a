-- ===== src/Audit.antt =====
-- The audit log: server/internal/dao/operation_log.go, server/internal/model/audit.go and
-- server/internal/model/audit_archive.go.
pub mod Store
pub mod Chain
pub mod Keys
pub mod Appending
pub mod Intact
pub mod Longer
pub mod Others
pub mod Verified
