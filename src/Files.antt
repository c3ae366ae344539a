-- ===== src/Files.antt =====
-- File versions: server/internal/dao/file.go and server/internal/service/clamav/retry.go.
pub mod Model
pub mod Scans
pub mod Versions
pub mod Newest
pub mod Retries
pub mod Delays
pub mod Claims
