-- ===== src/Downloads.antt =====
-- Batch downloads: server/internal/dao/batch_download.go over
-- server/internal/model/batch_download.go, and the worker of
-- server/internal/service/batchdownload/service.go.
pub mod Jobs
pub mod Worker
pub mod Consistency
pub mod Completion
