-- ===== src/Archive.antt =====
-- The archive of cold files: server/internal/dao/archive.go and
-- server/internal/service/archive/service.go.
pub mod Candidates
pub mod Completing
pub mod Listing
pub mod Passes
pub mod Safety
