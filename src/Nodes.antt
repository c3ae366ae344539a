-- ===== src/Nodes.antt =====
-- The directory tree of server/internal/dao/node.go: its tables, its operations, and the proofs.
pub mod Store
pub mod Tree
pub mod Paths
pub mod Closure
pub mod Rows
pub mod Moving
pub mod MoveLaws
pub mod Refusals
pub mod Trash
pub mod Adding
pub mod Creating
