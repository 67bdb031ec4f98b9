-- ===== src/Service/Storage.antt =====
-- `ReplicatedStore` of backend/app/storage/replicated.py
pub mod Roots
pub mod Commit
pub mod Steps
pub mod Order
pub mod Hashes
pub mod Quorum
pub mod Repair
