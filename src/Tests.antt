-- ===== src/Tests.antt =====
-- Concrete runs of the sync engine, and the theorems at inputs that exercise them.
mod Setting
mod Runs
mod Conflicts
mod Uploading
mod Reading
mod Transfers
mod Listings
mod Access
mod Witnesses
mod Serving
mod Booting
