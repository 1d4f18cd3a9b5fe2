-- ===== src/Uv.antt =====
-- webauthn/pin_uv_auth_token.rs, pin/mod.rs and what they use of the CTAP2 model: how a ceremony
-- gets its pinUvAuthToken.
pub mod Info
pub mod Token
pub mod Errors
pub mod Records
pub mod Crypto
pub mod Persistent
pub mod World
pub mod Pin
pub mod Round
pub mod Flow
pub mod Tests
