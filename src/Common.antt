-- ===== src/Common.antt =====
-- What the modules of the user service share: services/typescript/user-service/src/common.
pub mod Text
pub mod ParseInt
pub mod Json
pub mod Sanitizer
pub mod Signature
pub mod KeyOrder
pub mod Verified
pub mod Cors
pub mod CorsLaws
mod Tests
