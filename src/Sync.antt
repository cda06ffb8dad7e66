-- ===== src/Sync.antt =====
-- The sync engine: backend/internal/api/handlers_sync.go.
pub mod Validate
pub mod Statements
pub mod Fields
pub mod Conflicts
pub mod Upsert
pub mod Resolve
pub mod Ledger
pub mod Steps
pub mod Evolves
pub mod Confined
pub mod Delivery
pub mod Effect
pub mod History
pub mod Ownership
pub mod Isolation
pub mod Lineage
pub mod Merging
pub mod Upserted
pub mod Submission
pub mod Replay
pub mod Batch
pub mod Refreshing
pub mod Keyed
pub mod Resolution
pub mod Pending
pub mod Unlost
