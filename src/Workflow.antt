-- ===== src/Workflow.antt =====
-- Approval workflows: services/typescript/user-service/src/admin/approval-workflow.
pub mod Service
pub mod Laws
pub mod Unique
pub mod Migration
mod Tests
