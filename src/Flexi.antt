-- ===== src/Flexi.antt =====
-- Flexi requests and their approval: services/typescript/user-service/src/flexi/flexi.service.ts.
pub mod Entity
pub mod Tenure
pub mod Store
pub mod Skip
pub mod SkipLaws
pub mod Status
pub mod Levels
pub mod Saved
pub mod Checks
pub mod Approval
pub mod Safety
pub mod Progress
pub mod Pending
pub mod Reach
pub mod Agent
pub mod AgentLaws
pub mod Create
pub mod Disbursal
pub mod Extension
pub mod Unpaid
pub mod Journey
mod Tests
mod ReachTests
