-- ===== src/Tests.antt =====
-- The theorems at concrete inputs.
pub mod Access
pub mod Trees
pub mod Sharing
pub mod Uploading
pub mod Rules
pub mod Logs
pub mod Deliveries
pub mod Reading
pub mod Batches
pub mod Cold
