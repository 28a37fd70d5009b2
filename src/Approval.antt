-- ===== src/Approval.antt =====
-- internal/approval: the approval manager.
pub mod Types
pub mod Match
pub mod Manager
pub mod Tests
