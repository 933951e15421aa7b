-- ===== src/Storage.antt =====
-- The policies of backend/src/modules/storage.
pub mod Reconcile
pub mod ByteRange
pub mod Integrity
pub mod ObjectKeys
pub mod Examples
