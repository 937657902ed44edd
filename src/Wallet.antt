-- ===== src/Wallet.antt =====
-- Virtual wallets: services/typescript/user-service/src/user/virtual-account/virtual-wallet.service.ts,
-- its entities, and the database triggers that protect the balance.
pub mod Entity
pub mod Database
pub mod Service
pub mod Rows
pub mod Process
pub mod Balance
pub mod Safety
pub mod Columns
pub mod Reference
pub mod Outcome
pub mod Admin
pub mod Tests
