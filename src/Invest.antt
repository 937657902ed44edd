-- ===== src/Invest.antt =====
-- Investment requests: services/typescript/user-service/src/user/investment-request,
-- investment-request-canary and investment-request-income.
pub mod Entity
pub mod Store
pub mod Funding
pub mod Approve
pub mod Manage
pub mod Create
pub mod Redemption
pub mod Withdraw
pub mod Keeps
pub mod Preserved
pub mod Accounts
pub mod PreservedRest
pub mod History
pub mod Payment
pub mod References
pub mod Tables
pub mod Ready
pub mod Settlement
pub mod Outcome
pub mod Refused
pub mod Infoware
pub mod Covered
pub mod Redeemed
pub mod Positions
pub mod Withdrawn
pub mod Closed
pub mod Tests
