-- ===== src/Uploads.antt =====
-- Chunked uploads: server/internal/dao/upload.go and server/internal/handler/upload.go.
pub mod Chunks
pub mod Store
pub mod Quota
pub mod Sessions
pub mod Finalize
pub mod Placing
pub mod Reserved
pub mod Settling
pub mod Opening
pub mod Accounting
pub mod Bounds
pub mod Keys
