-- ===== src/Files.antt =====
-- The files and uploads of backend/src/modules/files.
pub mod UploadSessions
pub mod Hierarchy
pub mod Quota
pub mod Examples
