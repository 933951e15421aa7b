-- ===== src/Transfers.antt =====
-- Transfer tasks: backend/src/common/transfers and backend/src/modules/downloads/transfers.
pub mod State
pub mod Tables
pub mod Repository
pub mod Examples
