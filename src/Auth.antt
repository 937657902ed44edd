-- ===== src/Auth.antt =====
-- The accounts of users and their one-time passwords: services/typescript/user-service/src/user/auth.
pub mod Entity
pub mod Otp
pub mod Login
pub mod Password
pub mod Window
pub mod Recovery
pub mod Access
pub mod TwoFactor
mod Tests
