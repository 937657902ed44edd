-- ===== src/Pool.antt =====
-- Investment pools: services/typescript/user-service/src/user/investment-pull.
pub mod Entity
pub mod Service
pub mod Ledger
pub mod Deduction
pub mod Race
pub mod Account
pub mod Accrual
pub mod Portfolio
mod Tests
