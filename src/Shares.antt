-- ===== src/Shares.antt =====
-- External shares: server/internal/dao/share.go and server/internal/model/share.go.
pub mod Store
pub mod Downloads
pub mod Limits
