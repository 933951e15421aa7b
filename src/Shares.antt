-- ===== src/Shares.antt =====
-- Shared links: backend/src/modules/shares.
pub mod RateLimit
pub mod DownloadCommit
pub mod DownloadIntents
