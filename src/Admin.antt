-- ===== src/Admin.antt =====
-- Administration: backend/src/modules/admin.
pub mod Setup
